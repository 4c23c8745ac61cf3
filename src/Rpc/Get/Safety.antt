-- ===== src/Rpc/Get/Safety.antt =====
-- The readers of pkg/src/af_rpc.c on any buffer, whatever its bytes are.
use af_ipc.Common.{
  ℕ, zero, suc, ◌+◌, ◌≤◌, ◌<◌, ◌≡◌, refl, some, [], arith, inl, inr, Bool-cases, ltb, leb, ltb→ge,
  leb→gt, lt→ltb, ge→ltb, gt→leb, ne→==, ◌==◌, pos, fault, done, Returns, length, if◌then◌else◌,
}
use af_ipc.Rpc.Memory.{
  Bytes, getlen, load, load-Returns, store-Returns, getlen-Returns, getlen-outside,
}
use af_ipc.Rpc.Types.{Result, ok, err, bad_tlv, type_is_blob, blob_size}
use af_ipc.Rpc.Get.{
  get_value, get_value_from, copy_blob, get_blob_from, get_blob_at,
  get_blob_with_length_from_buffer_at_pos, BlobRead,
}

-- The position behind the value, inside the buffer.
abbrev pub IsSafeRead : ℕ → ℕ → Result (ℕ × ℕ) → Type 0
IsSafeRead next n (ok (v, q)) = (q ≡ next) × (q ≤ n)
IsSafeRead next n (err e) = Unit {0}

-- `pos`, with 0 for the first parameter.
abbrev pub first : ℕ → ℕ
first p = if p == 0 then 2 else p

get_value_from-safe :
    (type size n len p : ℕ) (b : Bytes)
    → len ≤ n
    → n ≤ length b
    → Returns (IsSafeRead (p + 2 + size) n) (get_value_from type size b len (pos p))
unfolding get_value_from
get_value_from-safe type size n len p b hl fits = elim (Bool-cases (ltb len p)) [
  | inl past ↦ rw past tt
  | inr inside ↦ elim (Bool-cases (ltb len (p + 2 + size))) [
    | inl short ↦ rw (inside, short) tt
    | inr room ↦
        let h = ltb→ge len (p + 2 + size) room in
        let (t, e) = getlen-Returns b p (omega arith) in
        let (v, f, l) = load-Returns b (p + 2) size (omega arith) in
        elim (Bool-cases (t == type)) [
          | inl found ↦ rw (inside, room, e, found, f) (refl, omega arith)
          | inr other ↦ rw (inside, room, e, other) tt
        ]
  ]
]

-- A reader of integers at a position that is not negative, on a buffer with any bytes, makes no
-- access outside the memory; if it succeeds, it returns the position behind the value, which lies
-- inside the buffer.
pub get_value-safe :
    (type size n p : ℕ) (b : Bytes)
    → n ≤ length b
    → Returns (IsSafeRead (first p + 2 + size) n) (get_value type size (some b) (pos n) (pos p))
unfolding get_value
get_value-safe type size n p b fits = elim (Bool-cases (leb n 2)) [
  | inl small ↦ rw small tt
  | inr big ↦
      let (len, e) = getlen-Returns b 0 (omega (arith, leb→gt n 2 big)) in
      elim (Bool-cases (ltb n len)) [
        | inl past ↦ rw (big, e, past) tt
        | inr inside ↦
            rw (big, e, inside)
              (get_value_from-safe type size n len (first p) b (ltb→ge n len inside) fits)
      ]
]

-- On an error the caller's memory and size are as before; else the blob lies inside the buffer, and
-- its size is at most the room.
abbrev pub IsSafeBlob : Bytes → ℕ → ℕ → BlobRead → Type 0
IsSafeBlob d room n (ok q, some memory, some (pos size)) =
    (q ≤ n) × (size ≤ room) × (length memory ≡ length d)
IsSafeBlob d room n (ok q, memory, size) = ⊥
IsSafeBlob d room n (err e, memory, size) = (memory ≡ some d) × (size ≡ some (pos room))

blob_part :
    (b : Bytes) (p size : ℕ)
    → p + size ≤ length b
    → (v : Bytes) × ((if size == 0 then done [] else load b p size) ≡ done v) × (length v ≡ size)
blob_part b p zero h = ([], refl, refl)
blob_part b p (suc k) h =
    let (v, e, l) = load-Returns b p (suc k) h in (v, rw (ne→== (suc k) 0 (omega arith)) e, l)

copy_blob-safe :
    (b d : Bytes) (room n len p size : ℕ)
    → len ≤ n
    → n ≤ length b
    → room ≤ length d
    → Returns (IsSafeBlob d room n) (copy_blob d room b len p size)
unfolding copy_blob
copy_blob-safe b d room n len p size hl fits hd = elim (Bool-cases (ltb len (p + size))) [
  | inl short ↦ rw short (refl, refl)
  | inr whole ↦ elim (Bool-cases (ltb room size)) [
    | inl large ↦ rw (whole, large) (refl, refl)
    | inr small ↦
        let h = ltb→ge len (p + size) whole in
        let k = ltb→ge room size small in
        let (v, e, l) = blob_part b p size (omega arith) in
        let (m, f, l') = store-Returns d 0 v (omega arith) in
        rw (whole, small, e, f) (omega arith, k, l')
  ]
]

get_blob_from-safe :
    (b d : Bytes) (room n len p : ℕ)
    → len ≤ n
    → n ≤ length b
    → room ≤ length d
    → p + 2 ≤ length b
    → Returns (IsSafeBlob d room n) (get_blob_from d room b len p)
unfolding get_blob_from
get_blob_from-safe b d room n len p hl fits hd hp =
    let (t, e) = getlen-Returns b p hp in
    elim (Bool-cases (type_is_blob t)) [
      | inl yes' ↦ rw (e, yes') (copy_blob-safe b d room n len (p + 2) (blob_size t) hl fits hd)
      | inr no' ↦ rw (e, no') (refl, refl)
    ]

get_blob_at-safe :
    (b d : Bytes) (room n len p : ℕ)
    → len ≤ n
    → n ≤ length b
    → room ≤ length d
    → p + 2 ≤ length b
    → Returns (IsSafeBlob d room n) (get_blob_at d room b len (pos p))
unfolding get_blob_at
get_blob_at-safe b d room n len p hl fits hd hp = elim (Bool-cases (ltb len p)) [
  | inl past ↦ rw past (refl, refl)
  | inr inside ↦ rw inside (get_blob_from-safe b d room n len p hl fits hd hp)
]

-- The reader of blobs, on a buffer with any bytes and at a position with two readable bytes behind
-- it, makes no access outside the memory of the buffer or of the caller. On an error it changes
-- nothing; else the position behind the blob is inside the buffer and the size is at most the room.
pub get_blob-safe :
    (b d : Bytes) (room n p : ℕ)
    → n ≤ length b
    → suc room ≤ length d
    → first p + 2 ≤ length b
    → Returns (IsSafeBlob d (suc room) n) (
        get_blob_with_length_from_buffer_at_pos
          (some d)
          (some (pos (suc room)))
          (some b)
          (pos n)
          (pos p))
unfolding get_blob_with_length_from_buffer_at_pos
get_blob-safe b d room n p fits hd hp = elim (Bool-cases (leb n 2)) [
  | inl small ↦ rw small (refl, refl)
  | inr big ↦
      let (len, e) = getlen-Returns b 0 (omega (arith, leb→gt n 2 big)) in
      elim (Bool-cases (ltb n len)) [
        | inl past ↦ rw (big, e, past) (refl, refl)
        | inr inside ↦
            rw (big, e, inside)
              (get_blob_at-safe b d (suc room) n len (first p) (ltb→ge n len inside) fits hd hp)
      ]
]

-- At the end of a full buffer the readers of integers report a bad TLV, but the reader of blobs
-- reads the type outside the memory.
pub get_blob_at_end :
    (b d : Bytes) (type size room n : ℕ)
    → 2 < n
    → n ≡ length b
    → getlen b 0 ≡ done n
    → (get_value type size (some b) (pos n) (pos n) ≡ done (err bad_tlv))
      × (get_blob_with_length_from_buffer_at_pos
            (some d)
            (some (pos (suc room)))
            (some b)
            (pos n)
            (pos n)
          ≡ fault)
unfolding get_value get_value_from get_blob_with_length_from_buffer_at_pos get_blob_at get_blob_from
get_blob_at_end b d type size room n h e l = (
  rw (
    gt→leb n 2 h,
    l,
    ge→ltb n n (omega arith),
    ne→== n 0 (omega arith),
    ge→ltb n n (omega arith),
    lt→ltb n (n + 2 + size) (omega arith),
  ),
  rw (
    gt→leb n 2 h,
    l,
    ge→ltb n n (omega arith),
    ne→== n 0 (omega arith),
    ge→ltb n n (omega arith),
    getlen-outside b n (omega arith),
  ),
)
