-- ===== src/Rpc/Params/Written.antt =====
-- What af_rpc_create_buffer_with_params of pkg/src/af_rpc.c writes.
use af_ipc.Common.{
  ℕ, ◌+◌, ◌%◌, ◌^◌, ◌≤◌, ◌<◌, ◌≡◌, refl, ap, sym, ◌∙◌, some, List, [], ◌∷◌, ◌++◌, append_assoc,
  append-nil, arith, pos, to_word, done, length, length-append, ge→ltb, bit_and, ne→==, take, drop,
  take-append-drop, take-append, length-take,
}
use af_ipc.Rpc.Memory.{Bytes, setlen, store, store_part, be8, be16, be32}
use af_ipc.Rpc.Types.{
  ok, get_size_of_type, type_is_integer, type_uint8, type_uint16, type_uint32, type_int8,
  type_int16, type_int32,
}
use af_ipc.Rpc.Add.Contents.{Contains}
use af_ipc.Rpc.Items.{
  Item, uint8, uint16, uint32, int8, int16, int32, blob, IsItem, AllItems, encode, encode_all,
  write_items,
}
use af_ipc.Rpc.Items.Write.{write_items-Contains}
use af_ipc.Rpc.Params.{Param, pointer, set_param_as_blob}
use af_ipc.Rpc.Params.Create.{put_param, put_params, create_buffer_with_params}
use af_ipc.Rpc.Params.Placed.{
  IsParam, AreParams, IsPut, put_bytes, signed_be8, signed_be16, signed_be32, size_of_blob,
  blob_type, put_param-sized, put_sized_blob,
}

put_param_lem :
    (x : Item) (y : Param) (n p q : ℕ) (b pre rest : Bytes)
    → IsItem x
    → IsParam x y
    → b ≡ pre ++ rest
    → p ≡ length pre
    → q ≡ p + length (encode x)
    → q ≤ n
    → n ≤ length b
    → IsPut q b pre (encode x) (put_param b n p y)
unfolding put_param get_size_of_type type_is_integer
put_param_lem (uint8 v) y n p q b pre rest h i e hp hq room inside = rw i (
    put_bytes type_uint8 1 n p q b pre rest (be8 v) (be8 v) _ e hp refl refl (omega arith) room
      inside)
put_param_lem (uint16 v) y n p q b pre rest h i e hp hq room inside = rw i (
    put_bytes type_uint16 2 n p q b pre rest (be16 v) (be16 v) _ e hp refl refl (omega arith) room
      inside)
put_param_lem (uint32 v) y n p q b pre rest h i e hp hq room inside = rw i (
    put_bytes type_uint32 4 n p q b pre rest (be32 v) (be32 v) _ e hp refl refl (omega arith) room
      inside)
put_param_lem (int8 v) y n p q b pre rest h i e hp hq room inside = rw i (
    put_bytes type_int8 1 n p q b pre rest (be8 (to_word 64 v)) (be8 (to_word 8 v)) _ e hp refl
      (signed_be8 v) (omega arith) room inside)
put_param_lem (int16 v) y n p q b pre rest h i e hp hq room inside = rw i (
    put_bytes type_int16 2 n p q b pre rest (be16 (to_word 64 v)) (be16 (to_word 16 v)) _ e hp refl
      (signed_be16 v) (omega arith) room inside)
put_param_lem (int32 v) y n p q b pre rest h i e hp hq room inside = rw i (
    put_bytes type_int32 4 n p q b pre rest (be32 (to_word 64 v)) (be32 (to_word 32 v)) _ e hp refl
      (signed_be32 v) (omega arith) room inside)
put_param_lem (blob v) y n p q b pre rest h (a, behind, ha, i) e hp hq room inside =
    let t = bit_and (length v) 0x3fff % 2 ^ 16 in
    let ht = blob_type (length v) h in
    let small : t < 2 ^ 14 = omega (arith, ht) in
    rw
      (
        i,
        put_param-sized b n p t (set_param_as_blob (pointer a (v ++ behind)) (length v))
            (size_of_blob t small) small,
      )
      (put_sized_blob t n p q a b pre rest v behind ht small ha e hp (omega arith) room inside)

put_params_lem :
    (xs : List Item) (ys : List Param) (n p q : ℕ) (b pre rest : Bytes)
    → AllItems xs
    → AreParams xs ys
    → b ≡ pre ++ rest
    → p ≡ length pre
    → q ≡ p + length (encode_all xs)
    → q ≤ n
    → n ≤ length b
    → IsPut q b pre (encode_all xs) (put_params b n p ys (length xs))
unfolding put_params
put_params_lem [] ys n p q b pre rest h i e hp hq room inside = (
  b,
  rest,
  ap (λ k. done (ok k, b)) (omega arith),
  e ∙ ap (λ z. z ++ rest) (sym (append-nil pre)),
  refl,
)
put_params_lem (x ∷ xs) [] n p q b pre rest h i e hp hq room inside = absurd i
put_params_lem (x ∷ xs) (y ∷ ys) n p q b pre rest h i e hp hq room inside =
    let total = length-append (encode x) (encode_all xs) in
    let m = p + length (encode x) in
    let (b1, r1, e1, c1, l1) =
      put_param_lem x y n p m b pre rest h.0 i.0 e hp refl (omega (arith, total)) inside in
    let (b2, r2, e2, c2, l2) =
      put_params_lem xs ys n m q b1 (pre ++ encode x) r1 h.1 i.1 c1
        (omega (arith, length-append pre (encode x))) (omega (arith, total)) room (omega arith) in
    (
      b2,
      r2,
      rw e1 e2,
      c2 ∙ ap (λ z. z ++ r2) (append_assoc pre (encode x) (encode_all xs)),
      l2 ∙ l1,
    )

set_length :
    (b hdr body rest : Bytes) (k : ℕ)
    → b ≡ (hdr ++ body) ++ rest
    → length hdr ≡ 2
    → setlen b 0 k ≡ done (be16 k ++ (body ++ rest))
unfolding setlen
set_length b hdr body rest k e h =
    ap (λ z. store z 0 (be16 k)) (e ∙ append_assoc hdr body rest)
    ∙ store_part [] hdr (body ++ rest) (be16 k) 0 refl (sym h)

-- af_rpc_create_buffer_with_params, on parameters set up by the macros for integers and blobs and a
-- buffer with room for them, returns the length of the encoding and leaves a buffer that contains it.
pub create-Contains :
    (xs : List Item) (ys : List Param) (n k : ℕ) (b : Bytes)
    → AllItems xs
    → AreParams xs ys
    → k ≡ 2 + length (encode_all xs)
    → k ≤ n
    → n ≤ length b
    → (b' : Bytes) × (create_buffer_with_params (some b) (pos n) (some ys) (pos (length xs))
        ≡ done (ok k, some b'))
      × Contains b' (encode_all xs)
      × (length b' ≡ length b)
unfolding create_buffer_with_params
create-Contains xs ys n k b h i hk room inside =
    let two : length (take 2 b) ≡ 2 = omega (arith, length-take 2 b) in
    let (b1, rest, e1, c1, l1) =
      put_params_lem xs ys n 2 k b (take 2 b) (drop 2 b) h i (sym (take-append-drop 2 b)) (sym two)
        hk room inside in
    let w = set_length b1 (take 2 b) (encode_all xs) rest k c1 two in
    (
      be16 k ++ (encode_all xs ++ rest),
      rw (ne→== n 0 (omega arith), ge→ltb n 2 (omega arith), e1, w),
      (rest, ap (λ m. be16 m ++ (encode_all xs ++ rest)) hk),
      omega (
        arith,
        ap length c1,
        length-append (take 2 b ++ encode_all xs) rest,
        length-append (take 2 b) (encode_all xs),
        length-append (encode_all xs) rest,
      ),
    )

take_contents :
    (b body : Bytes) (k : ℕ)
    → Contains b body
    → k ≡ 2 + length body
    → take k b ≡ be16 (2 + length body) ++ body
take_contents b body k (rest, e) hk =
    ap (take k) (e ∙ sym (append_assoc (be16 (2 + length body)) body rest))
    ∙ take-append (be16 (2 + length body) ++ body) rest k
        (omega (arith, length-append (be16 (2 + length body)) body))

-- For integers and blobs (no strings) whose encoding has less than 65536 bytes, in a buffer with room
-- for it: af_rpc_create_buffer_with_params, on the parameters that the macros set up, and
-- af_rpc_init_buffer with the incremental writers, in the same order, both succeed with the same
-- length, and leave the same bytes up to it.
pub create-write_items :
    (xs : List Item) (ys : List Param) (n k : ℕ) (b : Bytes)
    → AllItems xs
    → AreParams xs ys
    → k ≡ 2 + length (encode_all xs)
    → k ≤ n
    → n ≤ length b
    → k < 2 ^ 16
    → (b1 : Bytes) × (b2 : Bytes) × (create_buffer_with_params
          (some b)
          (pos n)
          (some ys)
          (pos (length xs))
        ≡ done (ok k, some b1))
      × (write_items (some b) (pos n) xs ≡ done (ok k, some b2))
      × (take k b1 ≡ take k b2)
create-write_items xs ys n k b h i hk room inside small =
    let (b1, e1, c1, l1) = create-Contains xs ys n k b h i hk room inside in
    let (b2, e2, c2, l2) = write_items-Contains xs n k b h hk room inside small in
    (
      b1,
      b2,
      e1,
      e2,
      take_contents b1 (encode_all xs) k c1 hk ∙ sym (take_contents b2 (encode_all xs) k c2 hk),
    )
