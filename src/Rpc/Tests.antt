-- ===== src/Rpc/Tests.antt =====
-- The theorems on the parameters of pkg/src/af_rpc.c, on concrete buffers.
use af_ipc.Common.{
  ℕ, zero, suc, ◌+◌, ◌≡◌, refl, Option, some, List, [], ◌∷◌, ◌++◌, arith, ◌-◌, ◌^◌, true, false,
  pos, negsuc, fault, done, Returns, length, length-append, take,
}
use af_ipc.Rpc.Memory.{Bytes, getlen, load, be16}
use af_ipc.Rpc.Types.{Result, ok, err, bad_tlv, type_uint8, type_is_blob}
use af_ipc.Rpc.Add.{add_value}
use af_ipc.Rpc.Add.Contents.{add_value-wraps}
use af_ipc.Rpc.Add.Safety.{IsSafeWrite}
use af_ipc.Rpc.Get.{get_value, get_blob_with_length_from_buffer_at_pos}
use af_ipc.Rpc.Get.Safety.{
  IsSafeRead, IsSafeBlob, first, get_value-safe, get_blob-safe, get_blob_at_end,
}
use af_ipc.Rpc.Items.{Item, uint8, int16, blob, add_item, write_items, get_items}
use af_ipc.Rpc.Items.Read.{get_items-write_items}
use af_ipc.Rpc.Items.Safety.{add_item-safe}
use af_ipc.Rpc.Params.{Param, word, pointer}
use af_ipc.Rpc.Params.Create.{create_buffer_with_params}
use af_ipc.Rpc.Params.Parse.{get_params_from_buffer}
use af_ipc.Rpc.Params.Safety.{get_params-total, IsBounded}
use af_ipc.Rpc.Params.Readable.Loop.{get_params-IsReadable, IsReadableResult}
use af_ipc.Rpc.Params.Written.{create-write_items}
use af_ipc.Rpc.Params.ReadBack.{AreRead}
use af_ipc.Rpc.Params.RoundTrip.{get_params-create}

abbrev zeros : ℕ → Bytes
zeros zero = []
zeros (suc n) = 0 ∷ zeros n

length-zeros : (n : ℕ) → length (zeros n) ≡ n
length-zeros zero = refl
length-zeros (suc n) = omega (arith, length-zeros n)

abbrev items : List Item
items = uint8 5 ∷ int16 (negsuc 1) ∷ blob (1 ∷ 2 ∷ 3 ∷ []) ∷ []

abbrev params : List Param
params =
    record { base = word 5; type = 0x9000 }
    ∷ record { base = word (2 ^ 64 - 2); type = 0xE000 }
    ∷ record { base = pointer 77 (1 ∷ 2 ∷ 3 ∷ []); type = 3 }
    ∷ []

-- The caller's array, with the types that it expects.
abbrev expected : List Param
expected =
    record { base = word 0; type = 0x9000 }
    ∷ record { base = word 0; type = 0xE000 }
    ∷ record { base = word 0; type = 0 }
    ∷ []

get_params-create_example :
    (b' : Bytes) × (entries' : List Param) × (create_buffer_with_params
        (some (zeros 16))
        (pos 16)
        (some params)
        (pos 3)
      ≡ done (ok 14, some b'))
    × (get_params_from_buffer (some expected) (pos 3) 1000 (some b') (pos 14) false
        ≡ some (done (ok 3, some entries')))
    × AreRead items entries'
    × (length entries' ≡ 3)
unfolding type_is_blob
get_params-create_example =
    get_params-create items params expected (zeros 16) 16 14 1000 3 false
      (omega arith, (omega arith, (omega arith, tt)))
      (refl, (refl, ((77, [], omega arith, refl), tt))) refl (omega arith) (omega arith)
      (omega arith) (refl, (refl, (refl, tt))) refl

create-write_items_example :
    (b1 : Bytes) × (b2 : Bytes) × (create_buffer_with_params
        (some (zeros 16))
        (pos 16)
        (some params)
        (pos 3)
      ≡ done (ok 14, some b1))
    × (write_items (some (zeros 16)) (pos 16) items ≡ done (ok 14, some b2))
    × (take 14 b1 ≡ take 14 b2)
create-write_items_example =
    create-write_items items params 16 14 (zeros 16) (omega arith, (omega arith, (omega arith, tt)))
      (refl, (refl, ((77, [], omega arith, refl), tt))) refl (omega arith) (omega arith)
      (omega arith)

-- A buffer that says that it has 200 bytes is refused; one of 5 bytes with a blob is read.
get_params-total_example :
    (r : Result ℕ × Option (List Param)) × (get_params_from_buffer
        (some expected)
        (pos 3)
        1000
        (some (0 ∷ 6 ∷ 0 ∷ 9 ∷ 1 ∷ 1 ∷ []))
        (pos 6)
        true
      ≡ some (done r))
    × IsBounded 3 3 r
get_params-total_example =
    get_params-total 1000 6 3 (0 ∷ 6 ∷ 0 ∷ 9 ∷ 1 ∷ 1 ∷ []) true expected (omega arith) (omega arith)

get_params-IsReadable_example :
    (r : Result ℕ × Option (List Param)) × (get_params_from_buffer
        (some expected)
        (pos 3)
        1000
        (some (0 ∷ 6 ∷ 0 ∷ 2 ∷ 1 ∷ 1 ∷ []))
        (pos 6)
        true
      ≡ some (done r))
    × IsReadableResult r
get_params-IsReadable_example =
    get_params-IsReadable 1000 6 3 (0 ∷ 6 ∷ 0 ∷ 2 ∷ 1 ∷ 1 ∷ []) true expected (omega arith)
      (omega arith)

get_items-write_items_example :
    (b' : Bytes) × (write_items (some (zeros 16)) (pos 16) items ≡ done (ok 14, some b'))
    × (get_items (zeros 16384) (some b') (pos 16) 2 items ≡ done (ok (14, items)))
get_items-write_items_example =
    get_items-write_items items (zeros 16) (zeros 16384) 16 14
      (omega arith, (omega arith, (omega arith, tt))) refl (omega arith) (omega arith) (omega arith)
      (omega (arith, length-zeros 16384))

add_item-safe_example :
    Returns
      (IsSafeWrite (some (0 ∷ 2 ∷ 7 ∷ 7 ∷ [])) (pos 4))
      (add_item (some (0 ∷ 2 ∷ 7 ∷ 7 ∷ [])) (pos 4) (uint8 5))
add_item-safe_example = add_item-safe (uint8 5) (some (0 ∷ 2 ∷ 7 ∷ 7 ∷ [])) (pos 4) (omega arith)

get_value-safe_example :
    Returns
      (IsSafeRead (first 2 + 2 + 1) 5)
      (get_value type_uint8 1 (some (0 ∷ 5 ∷ 144 ∷ 0 ∷ 9 ∷ [])) (pos 5) (pos 2))
get_value-safe_example = get_value-safe type_uint8 1 5 2 (0 ∷ 5 ∷ 144 ∷ 0 ∷ 9 ∷ []) (omega arith)

get_blob-safe_example : Returns (IsSafeBlob (zeros 4) 4 7) (
    get_blob_with_length_from_buffer_at_pos
      (some (zeros 4))
      (some (pos 4))
      (some (0 ∷ 7 ∷ 0 ∷ 3 ∷ 1 ∷ 2 ∷ 3 ∷ []))
      (pos 7)
      (pos 2))
get_blob-safe_example =
    get_blob-safe (0 ∷ 7 ∷ 0 ∷ 3 ∷ 1 ∷ 2 ∷ 3 ∷ []) (zeros 4) 3 7 2 (omega arith) (omega arith)
      (omega arith)

get_blob_at_end_example :
    (get_value type_uint8 1 (some (0 ∷ 5 ∷ 144 ∷ 0 ∷ 9 ∷ [])) (pos 5) (pos 5) ≡ done (err bad_tlv))
    × (get_blob_with_length_from_buffer_at_pos
          (some (zeros 4))
          (some (pos 4))
          (some (0 ∷ 5 ∷ 144 ∷ 0 ∷ 9 ∷ []))
          (pos 5)
          (pos 5)
        ≡ fault)
unfolding getlen load
get_blob_at_end_example =
    get_blob_at_end (0 ∷ 5 ∷ 144 ∷ 0 ∷ 9 ∷ []) (zeros 4) type_uint8 1 3 5 (omega arith) refl refl

-- 65533 bytes are in use, and 70000 may be.
abbrev full : Bytes
full = be16 (2 + length (zeros 65531)) ++ (zeros 65531 ++ zeros 4467)

length-full : length full ≡ 70000
length-full =
    omega (arith, length-append (zeros 65531) (zeros 4467), length-zeros 65531, length-zeros 4467)

add_value-wraps_example :
    (b' : Bytes) × (add_value type_uint8 1 (done (7 ∷ [])) (some full) (pos 70000)
      ≡ done (ok 65536, some b'))
    × (getlen b' 0 ≡ done 0)
add_value-wraps_example =
    add_value-wraps type_uint8 1 70000 65536 full (zeros 65531) (7 ∷ []) (zeros 4467, refl) refl
      (omega arith) (omega (arith, length-zeros 65531)) (omega arith) (omega (arith, length-full))
      (omega (arith, length-zeros 65531)) (omega arith)
