-- ===== src/Rpc/Get/Found.antt =====
-- The readers of pkg/src/af_rpc.c on a buffer that holds a value of the wanted type at the position.
use af_ipc.Common.{
  ℕ, ◌+◌, ◌^◌, ◌≤◌, ◌<◌, ◌≡◌, refl, ap, ◌∙◌, some, [], ◌∷◌, ◌++◌, append_assoc, arith, pos, suc,
  done, if◌then◌else◌, ◌==◌, length, length-append, le→leb, gt→leb, ge→ltb, ne→==, ==_self, drop,
}
use native.Mathlib.Nat.{mod-eq_of_lt}
use af_ipc.Rpc.Memory.{Bytes, getlen, load, load_part, getlen_part, store, from_be, be16}
use af_ipc.Rpc.Types.{ok}
use af_ipc.Rpc.Types.Masks.{type_is_blob_of_lt, blob_size_lem}
use af_ipc.Rpc.Add.Contents.{Contains, getlen-Contains}
use af_ipc.Rpc.Get.{
  get_value, get_value_from, get_blob_with_length_from_buffer_at_pos, get_blob_from, get_blob_at,
  copy_blob,
}

-- A buffer cut at a parameter inside its contents.
cut_at :
    (b pre v post rest : Bytes) (type m : ℕ)
    → b ≡ be16 m ++ ((pre ++ (be16 type ++ (v ++ post))) ++ rest)
    → b ≡ (be16 m ++ pre) ++ (be16 type ++ (v ++ (post ++ rest)))
cut_at b pre v post rest type m e =
    e
    ∙ ap (◌++◌ (be16 m)) (append_assoc pre (be16 type ++ (v ++ post)) rest)
    ∙ ap (λ z. (be16 m ++ pre) ++ (be16 type ++ z)) (append_assoc v post rest)

pub getlen_inside :
    (b pre v post : Bytes) (type p : ℕ)
    → Contains b (pre ++ (be16 type ++ (v ++ post)))
    → p ≡ 2 + length pre
    → type < 2 ^ 16
    → getlen b p ≡ done type
getlen_inside b pre v post type p (rest, e) hp ht =
    let m = 2 + length (pre ++ (be16 type ++ (v ++ post))) in
    rw (cut_at b pre v post rest type m e)
      (getlen_part (be16 m ++ pre) (v ++ (post ++ rest)) p type (omega arith) ht)

pub load_inside :
    (b pre v post : Bytes) (type p : ℕ)
    → Contains b (pre ++ (be16 type ++ (v ++ post)))
    → p ≡ 2 + length pre
    → load b (p + 2) (length v) ≡ done v
load_inside b pre v post type p (rest, e) hp =
    let m = 2 + length (pre ++ (be16 type ++ (v ++ post))) in
    let h = be16 m ++ pre in
    rw (cut_at b pre v post rest type m e, ← append_assoc h (be16 type) (v ++ (post ++ rest)))
      (load_part (h ++ be16 type) v (post ++ rest) (p + 2) (length v)
        (omega (arith, length-append h (be16 type))) refl)

module _ (b pre v post : Bytes) (type n p : ℕ) (c : Contains b (pre ++ (be16 type ++ (v ++ post))))
    (ht : type < 2 ^ 16) (small : 2 + length (pre ++ (be16 type ++ (v ++ post))) < 2 ^ 16)
    (fits : 2 + length (pre ++ (be16 type ++ (v ++ post))) ≤ n) (hp : p ≡ 2 + length pre) where
  contents_length :
      2 + length (pre ++ (be16 type ++ (v ++ post))) ≡ 4 + length pre + length v + length post
  contents_length =
      omega (arith, length-append pre (be16 type ++ (v ++ post)), length-append v post)

  get_value_from_found :
      get_value_from type (length v) b (2 + length (pre ++ (be16 type ++ (v ++ post)))) (pos p)
      ≡ done (ok (from_be v, p + 2 + length v))
  unfolding get_value_from
  get_value_from_found = rw (
    ge→ltb (2 + length (pre ++ (be16 type ++ (v ++ post)))) p (omega (arith, contents_length)),
    ge→ltb (2 + length (pre ++ (be16 type ++ (v ++ post)))) (p + 2 + length v)
        (omega (arith, contents_length)),
    getlen_inside b pre v post type p c hp ht,
    ==_self type,
    load_inside b pre v post type p c hp,
  )

  -- A reader at the position of a value of its type returns the value and the position behind it.
  pub get_value_found :
      get_value type (length v) (some b) (pos n) (pos p) ≡ done (ok (from_be v, p + 2 + length v))
  unfolding get_value
  get_value_found =
      rw
        (
          gt→leb n 2 (omega (arith, contents_length)),
          getlen-Contains b (pre ++ (be16 type ++ (v ++ post))) c small,
          ge→ltb n (2 + length (pre ++ (be16 type ++ (v ++ post)))) fits,
          ne→== p 0 (omega arith),
        )
        get_value_from_found

-- The copy of a blob, skipped for an empty one.
blob_value :
    (b v : Bytes) (p : ℕ)
    → load b p (length v) ≡ done v
    → (if length v == 0 then done [] else load b p (length v)) ≡ done v
blob_value b [] p h = refl
blob_value b (x ∷ v) p h = rw (ne→== (length (x ∷ v)) 0 (omega arith)) h

store_front : (d v : Bytes) → length v ≤ length d → store d 0 v ≡ done (v ++ drop (length v) d)
unfolding store
store_front d v h =
    rw (le→leb (0 + length v) (length d) (omega arith))
      (ap done (ap (λ k. v ++ drop k d) (omega arith)))

copy_blob_found :
    (b d v : Bytes) (room len p : ℕ)
    → p + length v ≤ len
    → length v ≤ room
    → length v ≤ length d
    → load b p (length v) ≡ done v
    → copy_blob d room b len p (length v)
      ≡ done (ok (p + length v), some (v ++ drop (length v) d), some (pos (length v)))
unfolding copy_blob
copy_blob_found b d v room len p fits h hd e = rw (
  ge→ltb len (p + length v) fits,
  ge→ltb room (length v) h,
  blob_value b v p e,
  store_front d v hd,
)

module _ (b d pre v post : Bytes) (n p room : ℕ)
    (c : Contains b (pre ++ (be16 (length v) ++ (v ++ post)))) (size : length v < 2 ^ 14)
    (small : 2 + length (pre ++ (be16 (length v) ++ (v ++ post))) < 2 ^ 16)
    (fits : 2 + length (pre ++ (be16 (length v) ++ (v ++ post))) ≤ n) (hp : p ≡ 2 + length pre)
    (hroom : length v ≤ suc room) (hd : length v ≤ length d) where
  blob_contents_length :
      2 + length (pre ++ (be16 (length v) ++ (v ++ post))) ≡ 4 + length pre + length v + length post
  blob_contents_length =
      omega (arith, length-append pre (be16 (length v) ++ (v ++ post)), length-append v post)

  get_blob_at_found :
      get_blob_at d (suc room) b (2 + length (pre ++ (be16 (length v) ++ (v ++ post)))) (pos p)
      ≡ done (ok (p + 2 + length v), some (v ++ drop (length v) d), some (pos (length v)))
  unfolding get_blob_at get_blob_from
  get_blob_at_found =
      rw
        (
          ge→ltb (2 + length (pre ++ (be16 (length v) ++ (v ++ post)))) p
              (omega (arith, blob_contents_length)),
          getlen_inside b pre v post (length v) p c hp (omega arith),
          type_is_blob_of_lt (length v) (omega arith),
          blob_size_lem (length v),
        )
        (rw (mod-eq_of_lt size) (
          copy_blob_found b d v (suc room) (2 + length (pre ++ (be16 (length v) ++ (v ++ post))))
            (p + 2) (omega (arith, blob_contents_length)) hroom hd
            (load_inside b pre v post (length v) p c hp)))

  -- A blob with room for it is copied to the caller's memory, with its size.
  pub get_blob_found :
      get_blob_with_length_from_buffer_at_pos
        (some d)
        (some (pos (suc room)))
        (some b)
        (pos n)
        (pos p)
      ≡ done (ok (p + 2 + length v), some (v ++ drop (length v) d), some (pos (length v)))
  unfolding get_blob_with_length_from_buffer_at_pos
  get_blob_found =
      rw
        (
          gt→leb n 2 (omega (arith, blob_contents_length)),
          getlen-Contains b (pre ++ (be16 (length v) ++ (v ++ post))) c small,
          ge→ltb n (2 + length (pre ++ (be16 (length v) ++ (v ++ post)))) fits,
          ne→== p 0 (omega arith),
        )
        get_blob_at_found
