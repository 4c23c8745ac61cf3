-- ===== src/Rpc/Items/Write.antt =====
-- Writing a list of parameters with the incremental writers of pkg/src/af_rpc.c.
use af_ipc.Common.{
  ℕ, ◌+◌, ◌^◌, ◌≤◌, ◌<◌, ◌≡◌, refl, ap, sym, ◌∙◌, some, List, [], ◌∷◌, ◌++◌, append_assoc,
  append-nil, arith, ℤ, pos, to_word, done, ◌>>=◌, length, length-append, ge→ltb, ne→==, take, drop,
  take-append-drop, length-take, length-drop,
}
use af_ipc.Rpc.Memory.{Bytes, Buffer, setlen, store_part, load, load_part, be8, be16, be32}
use af_ipc.Rpc.Types.{ok, type_uint8, type_uint16, type_uint32, type_int8, type_int16, type_int32}
use af_ipc.Rpc.Types.Masks.{type_blob_lem}
use af_ipc.Rpc.Add.{
  add_value, add_uint8_to_buffer, add_uint16_to_buffer, add_uint32_to_buffer, add_int8_to_buffer,
  add_int16_to_buffer, add_int32_to_buffer, add_blob_to_buffer, init_buffer,
}
use af_ipc.Rpc.Add.Contents.{Contains, add_value-Contains}
use af_ipc.Rpc.Items.{
  Item, uint8, uint16, uint32, int8, int16, int32, blob, IsItem, AllItems, encode, encode_all,
  add_item, add_items, write_items,
}

appended :
    (type size n k : ℕ) (b body v : Bytes)
    → Contains b body
    → length v ≡ size
    → k ≡ 2 + length body + 2 + size
    → k ≤ n
    → n ≤ length b
    → k < 2 ^ 16
    → (b' : Bytes) × (add_value type size (done v) (some b) (pos n) ≡ done (ok k, some b'))
      × Contains b' (body ++ (be16 type ++ v))
      × (length b' ≡ length b)
appended type size n k b body v c hv hk room inside small =
    let (b', e, c', l) =
      add_value-Contains type size n b body v c hv (omega arith) inside (omega arith) in
    (b', e ∙ ap (λ m. done (ok m, some b')) (sym hk), c', l)

pub load_all : (v : Bytes) → load v 0 (length v) ≡ done v
load_all v =
    ap (λ w. load w 0 (length v)) (sym (append-nil v)) ∙ load_part [] v [] 0 (length v) refl refl

-- `add_blob_to_buffer` on a blob of allowed size is an append of its bytes.
pub add_blob_lem :
    (buf : Buffer) (n : ℤ) (v : Bytes)
    → length v < 2 ^ 14
    → add_blob_to_buffer buf n (some v) (pos (length v))
      ≡ add_value (length v) (length v) (done v) buf n
unfolding add_blob_to_buffer
add_blob_lem buf n [] h = rw (type_blob_lem 0 (omega arith))
add_blob_lem buf n (x ∷ v) h = rw (
  ge→ltb 16383 (length (x ∷ v)) (omega arith),
  ne→== (length (x ∷ v)) 0 (omega arith),
  type_blob_lem (length (x ∷ v)) h,
  load_all (x ∷ v),
)

-- Each writer adds its parameter to the contents, and returns the position behind it.
pub add_item-Contains :
    (x : Item) (n k : ℕ) (b body : Bytes)
    → IsItem x
    → Contains b body
    → k ≡ 2 + length body + length (encode x)
    → k ≤ n
    → n ≤ length b
    → k < 2 ^ 16
    → (b' : Bytes) × (add_item (some b) (pos n) x ≡ done (ok k, some b'))
      × Contains b' (body ++ encode x)
      × (length b' ≡ length b)
unfolding add_item add_uint8_to_buffer add_uint16_to_buffer add_uint32_to_buffer add_int8_to_buffer
    add_int16_to_buffer add_int32_to_buffer
add_item-Contains (uint8 v) n k b body h c hk room inside small =
    appended type_uint8 1 n k b body (be8 v) c refl (omega arith) room inside small
add_item-Contains (uint16 v) n k b body h c hk room inside small =
    appended type_uint16 2 n k b body (be16 v) c refl (omega arith) room inside small
add_item-Contains (uint32 v) n k b body h c hk room inside small =
    appended type_uint32 4 n k b body (be32 v) c refl (omega arith) room inside small
add_item-Contains (int8 v) n k b body h c hk room inside small =
    appended type_int8 1 n k b body (be8 (to_word 8 v)) c refl (omega arith) room inside small
add_item-Contains (int16 v) n k b body h c hk room inside small =
    appended type_int16 2 n k b body (be16 (to_word 16 v)) c refl (omega arith) room inside small
add_item-Contains (int32 v) n k b body h c hk room inside small =
    appended type_int32 4 n k b body (be32 (to_word 32 v)) c refl (omega arith) room inside small
add_item-Contains (blob v) n k b body h c hk room inside small =
    rw (add_blob_lem (some b) (pos n) v h)
      (appended (length v) (length v) n k b body v c refl (omega arith) room inside small)

-- Writing a list of parameters into a buffer with room for them adds their encoding, in order,
-- and returns the position behind them.
pub add_items-Contains :
    (xs : List Item) (n k p : ℕ) (b body : Bytes)
    → AllItems xs
    → Contains b body
    → p ≡ 2 + length body
    → k ≡ 2 + length body + length (encode_all xs)
    → k ≤ n
    → n ≤ length b
    → k < 2 ^ 16
    → (b' : Bytes) × (add_items (ok p, some b) (pos n) xs ≡ done (ok k, some b'))
      × Contains b' (body ++ encode_all xs)
      × (length b' ≡ length b)
unfolding add_items
add_items-Contains [] n k p b body h c hp hk room inside small =
    (b, ap (λ m. done (ok m, some b)) (omega arith), rw (append-nil body) c, refl)
add_items-Contains (x ∷ xs) n k p b body h c hp hk room inside small =
    let cut = length-append (encode x) (encode_all xs) in
    let q = 2 + length body + length (encode x) in
    let (b1, e1, c1, l1) =
      add_item-Contains x n q b body h.0 c refl (omega (arith, cut)) inside (omega (arith, cut)) in
    let (b2, e2, c2, l2) =
      add_items-Contains xs n k q b1 (body ++ encode x) h.1 c1
        (omega (arith, length-append body (encode x)))
        (omega (arith, cut, length-append body (encode x))) room (omega arith) small in
    (b2, rw e1 e2, rw (← append_assoc body (encode x) (encode_all xs)) c2, l2 ∙ l1)

init-Contains :
    (b : Bytes) (n : ℕ)
    → 2 ≤ n
    → n ≤ length b
    → (b' : Bytes) × (init_buffer (some b) (pos n) ≡ done (ok 2, some b'))
      × Contains b' []
      × (length b' ≡ length b)
unfolding init_buffer setlen
init-Contains b n h inside = (
  be16 2 ++ drop 2 b,
  rw (ge→ltb n 2 h) (ap (λ r. r >>= λ b'. done (ok 2, some b')) stored),
  (drop 2 b, refl),
  omega (arith, length-drop 2 b),
)
  where
    stored : setlen b 0 2 ≡ done (be16 2 ++ drop 2 b)
    stored =
        ap (λ z. setlen z 0 2) (sym (take-append-drop 2 b))
        ∙ store_part [] (take 2 b) (drop 2 b) (be16 2) 0 refl (omega (arith, length-take 2 b))

pub write_items-Contains :
    (xs : List Item) (n k : ℕ) (b : Bytes)
    → AllItems xs
    → k ≡ 2 + length (encode_all xs)
    → k ≤ n
    → n ≤ length b
    → k < 2 ^ 16
    → (b' : Bytes) × (write_items (some b) (pos n) xs ≡ done (ok k, some b'))
      × Contains b' (encode_all xs)
      × (length b' ≡ length b)
unfolding write_items
write_items-Contains xs n k b h hk room inside small =
    let (b1, e1, c1, l1) = init-Contains b n (omega arith) inside in
    let (b2, e2, c2, l2) =
      add_items-Contains xs n k 2 b1 [] h c1 refl (omega arith) room (omega arith) small in
    (b2, rw e1 e2, c2, l2 ∙ l1)
