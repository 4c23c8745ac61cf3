-- ===== src/Rpc/Items/Read.antt =====
-- Reading a list of parameters back with the incremental readers of pkg/src/af_rpc.c.
use af_ipc.Common.{
  ℕ, suc, ◌+◌, ◌-◌, ◌^◌, ◌≤◌, ◌<◌, ◌≡◌, refl, ap, sym, subst, ◌∙◌, some, List, [], ◌∷◌, ◌++◌,
  append_assoc, append-nil, arith, ℤ, pos, negsuc, to_word, from_word, IsSigned, ap₂, Run, done,
  length, length-append, drop, take-append, from_word-to_word8, from_word-to_word16,
  from_word-to_word32,
}
use af_ipc.Rpc.Memory.{Bytes, be8, be16, be32, from_be, from_be-be8, from_be-be16, from_be-be32}
use af_ipc.Rpc.Types.{
  Result, ok, type_uint8, type_uint16, type_uint32, type_int8, type_int16, type_int32,
}
use af_ipc.Rpc.Get.{
  get_uint8_from_buffer_at_pos, get_uint16_from_buffer_at_pos, get_uint32_from_buffer_at_pos,
  get_int8_from_buffer_at_pos, get_int16_from_buffer_at_pos, get_int32_from_buffer_at_pos,
  get_blob_with_length_from_buffer_at_pos,
}
use af_ipc.Rpc.Get.Found.{get_value_found, get_blob_found}
use af_ipc.Rpc.Add.Contents.{Contains}
use af_ipc.Rpc.Items.{
  Item, uint8, uint16, uint32, int8, int16, int32, blob, IsItem, AllItems, encode, encode_all,
  get_item, get_items, write_items,
}
use af_ipc.Rpc.Items.Write.{write_items-Contains}

pub to_word8-lt : (z : ℤ) → to_word 8 z < 2 ^ 8
to_word8-lt (pos n) = omega arith
to_word8-lt (negsuc n) = omega arith

pub to_word16-lt : (z : ℤ) → to_word 16 z < 2 ^ 16
to_word16-lt (pos n) = omega arith
to_word16-lt (negsuc n) = omega arith

pub to_word32-lt : (z : ℤ) → to_word 32 z < 2 ^ 32
to_word32-lt (pos n) = omega arith
to_word32-lt (negsuc n) = omega arith

-- A signed integer comes back from its bytes.
pub signed8 : (z : ℤ) → IsSigned 8 z → from_word 8 (from_be (be8 (to_word 8 z))) ≡ z
signed8 z h = ap (from_word 8) (from_be-be8 (to_word 8 z) (to_word8-lt z)) ∙ from_word-to_word8 z h

pub signed16 : (z : ℤ) → IsSigned 16 z → from_word 16 (from_be (be16 (to_word 16 z))) ≡ z
signed16 z h =
    ap (from_word 16) (from_be-be16 (to_word 16 z) (to_word16-lt z)) ∙ from_word-to_word16 z h

pub signed32 : (z : ℤ) → IsSigned 32 z → from_word 32 (from_be (be32 (to_word 32 z))) ≡ z
signed32 z h =
    ap (from_word 32) (from_be-be32 (to_word 32 z) (to_word32-lt z)) ∙ from_word-to_word32 z h

read_result :
    {A : Type 0} (c : A → Item) (p q : ℕ) (v w : A)
    → p ≡ q
    → v ≡ w
    → ◌≡◌ {A = Run (Result (ℕ × Item))} (done (ok (p, c v))) (done (ok (q, c w)))
read_result c p q v w hp hv = ap₂ (λ k z. done (ok (k, c z))) hp hv

full_room : (d : Bytes) → 0 < length d → length d ≡ suc (length d - 1)
full_room d h = omega arith

module _ (b pre post scratch : Bytes) (n p : ℕ) (room : 2 ^ 14 ≤ length scratch)
    (hp : p ≡ 2 + length pre) where
  -- The reader of a parameter's type returns the parameter and the position behind it.
  get_item_found :
      (x : Item)
      → IsItem x
      → Contains b (pre ++ (encode x ++ post))
      → 2 + length (pre ++ (encode x ++ post)) < 2 ^ 16
      → 2 + length (pre ++ (encode x ++ post)) ≤ n
      → get_item scratch (some b) (pos n) (pos p) x ≡ done (ok (p + length (encode x), x))
  unfolding get_item get_uint8_from_buffer_at_pos get_uint16_from_buffer_at_pos
      get_uint32_from_buffer_at_pos get_int8_from_buffer_at_pos get_int16_from_buffer_at_pos
      get_int32_from_buffer_at_pos
  get_item_found (uint8 v) h c small fits =
      rw (get_value_found b pre (be8 v) post type_uint8 n p c (omega arith) small fits hp)
        (ground (arith, from_be-be8 v))
  get_item_found (uint16 v) h c small fits =
      rw (get_value_found b pre (be16 v) post type_uint16 n p c (omega arith) small fits hp)
        (ground (arith, from_be-be16 v))
  get_item_found (uint32 v) h c small fits =
      rw (get_value_found b pre (be32 v) post type_uint32 n p c (omega arith) small fits hp)
        (ground (arith, from_be-be32 v))
  get_item_found (int8 v) h c small fits =
      rw
        (get_value_found b pre (be8 (to_word 8 v)) post type_int8 n p c (omega arith) small fits hp)
        (read_result int8 _ _ _ v (omega arith) (signed8 v h))
  get_item_found (int16 v) h c small fits =
      rw
        (get_value_found b pre (be16 (to_word 16 v)) post type_int16 n p c (omega arith) small fits
          hp)
        (read_result int16 _ _ _ v (omega arith) (signed16 v h))
  get_item_found (int32 v) h c small fits =
      rw
        (get_value_found b pre (be32 (to_word 32 v)) post type_int32 n p c (omega arith) small fits
          hp)
        (read_result int32 _ _ _ v (omega arith) (signed32 v h))
  get_item_found (blob v) h c small fits =
      let last = length scratch - 1 in
      rw
        (
          ap
              (λ k.
                get_blob_with_length_from_buffer_at_pos (some scratch) (some (pos k)) (some b)
                  (pos n) (pos p))
              (full_room scratch (omega arith)),
          get_blob_found b scratch pre v post n p last c h small fits hp (omega arith)
              (omega arith),
          take-append v (drop (length v) scratch) (length v) refl,
        )
        (ap (λ k. done (ok (k, blob v))) (omega arith))
  -- Reading on, the prefix grows.

read_on :
    (xs : List Item) (b pre post scratch : Bytes) (n p : ℕ)
    → 2 ^ 14 ≤ length scratch
    → p ≡ 2 + length pre
    → AllItems xs
    → Contains b (pre ++ (encode_all xs ++ post))
    → 2 + length (pre ++ (encode_all xs ++ post)) < 2 ^ 16
    → 2 + length (pre ++ (encode_all xs ++ post)) ≤ n
    → get_items scratch (some b) (pos n) p xs ≡ done (ok (p + length (encode_all xs), xs))
unfolding get_items
read_on [] b pre post scratch n p room hp h c small fits = ap (λ k. done (ok (k, []))) (omega arith)
read_on (x ∷ xs) b pre post scratch n p room hp h c small fits =
    let E = encode_all xs in
    let e1 = ap (◌++◌ pre) (append_assoc (encode x) E post) in
    let e2 = e1 ∙ sym (append_assoc pre (encode x) (E ++ post)) in
    rw
      (
        get_item_found b pre (E ++ post) scratch n p room hp x h.0 (subst (Contains b) e1 c)
            (omega (arith, ap length e1)) (omega (arith, ap length e1)),
        read_on xs b (pre ++ encode x) post scratch n (p + length (encode x)) room
            (omega (arith, length-append pre (encode x))) h.1 (subst (Contains b) e2 c)
            (omega (arith, ap length e2)) (omega (arith, ap length e2)),
      )
      (ap (λ k. done (ok (k, x ∷ xs))) (omega (arith, length-append (encode x) E)))

-- What the incremental writers write, the readers read back: after writing any list of parameters
-- that fits into the buffer (and into the 16-bit length), the writers have returned the length of the
-- encoding, and reading each parameter by the reader of its type returns that list, in order, and
-- ends at that length.
pub get_items-write_items :
    (xs : List Item) (b scratch : Bytes) (n k : ℕ)
    → AllItems xs
    → k ≡ 2 + length (encode_all xs)
    → k ≤ n
    → n ≤ length b
    → k < 2 ^ 16
    → 2 ^ 14 ≤ length scratch
    → (b' : Bytes) × (write_items (some b) (pos n) xs ≡ done (ok k, some b'))
      × (get_items scratch (some b') (pos n) 2 xs ≡ done (ok (k, xs)))
get_items-write_items xs b scratch n k h hk room inside small hs =
    let (b', e, c, l) = write_items-Contains xs n k b h hk room inside small in
    let nil = sym (append-nil (encode_all xs)) in
    (
      b',
      e,
      read_on xs b' [] [] scratch n 2 hs refl h (subst (Contains b') nil c)
            (omega (arith, ap length nil)) (omega (arith, ap length nil))
          ∙ ap (λ m. done (ok (m, xs))) (sym hk),
    )
