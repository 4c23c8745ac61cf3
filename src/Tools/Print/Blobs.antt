-- ===== src/Tools/Print/Blobs.antt =====
-- What pkg/src/ipc_send.c and pkg/src/ipc_wait.c print of a reply of blobs.
pub mod Joined
use af_ipc.Common.{
  ℕ, zero, suc, ◌+◌, ◌-◌, ◌*◌, ◌^◌, ◌≤◌, ◌<◌, ◌≡◌, refl, ap, ap₂, subst, sym, ◌∙◌, arith, Bool,
  true, false, List, [], ◌∷◌, ◌++◌, map, append_assoc, append-nil, Option, some, inl, inr,
  Bool-cases, lt→ltb, leb, le→leb, ltb, Run, fault, done, ◌>>=◌, length, length-append, take, drop,
  take-append-drop,
}
use af_ipc.Rpc.Memory.{Bytes, load, store, load_part, store_part}
use af_ipc.Rpc.Types.{ok, type_is_integer, blob_is_string, blob_size}
use af_ipc.Rpc.Types.Masks.{type_is_integer_of_lt, and_0x4000, blob_size_lem}
use af_ipc.Rpc.Items.{Item, blob}
use af_ipc.Rpc.Params.{Base, word, pointer, Param, read_base}
use af_ipc.Rpc.Params.ReadBack.{IsRead, AreRead}
use af_ipc.Tools.Text.{hex_text, byte_text}
use af_ipc.Tools.Text.Numbers.{length-hex_text}
use af_ipc.Tools.Print.{
  Printing, zeros, put_space, put_bytes, put_hex, put_value, put_values, if_printing, c_string,
  printed, print_params, read_byte,
}
use af_ipc.Tools.Print.Texts.{NoNul, NoNul-append, hex_text-NoNul, c_string_text}

-- The text so far, with zeros behind it.
abbrev pub IsText : Bytes → Bytes → ℕ → Type 0
IsText t s p = (m : ℕ) × (s ≡ t ++ zeros m) × (length t + m ≡ 256) × (p ≡ length t)

pub length-zeros : (n : ℕ) → length (zeros n) ≡ n
length-zeros zero = refl
length-zeros (suc n) = omega (arith, length-zeros n)

zeros-add : (k m : ℕ) → zeros (k + m) ≡ zeros k ++ zeros m
zeros-add zero m = ap zeros (omega arith)
zeros-add (suc k) m = ap zeros (next k m) ∙ ap (λ z. 0 ∷ z) (zeros-add k m)
  where
    next : (k m : ℕ) → suc k + m ≡ suc (k + m)
    next k m = omega arith

-- A write behind the text.
write :
    (t w s : Bytes) (p : ℕ)
    → IsText t s p
    → length t + length w ≤ 256
    → (s' : Bytes) × (store s p w ≡ done s')
      × ((m : ℕ) × (s' ≡ t ++ (w ++ zeros m)) × (length t + (length w + m) ≡ 256))
write t w s p (m, e, l, hp) room =
    let k = m - length w in
    let split : m ≡ length w + k = omega arith in
    (
      t ++ (w ++ zeros k),
      ap (λ z. store z p w)
            (e ∙ ap (λ n. t ++ zeros n) split ∙ ap (λ z. t ++ z) (zeros-add (length w) k))
          ∙ store_part t (zeros (length w)) (zeros k) w p hp (sym (length-zeros (length w))),
      (k, refl, omega arith),
    )

-- A space behind the text.
pub space_put :
    (t s : Bytes) (p i : ℕ)
    → IsText t s p
    → length t < 254
    → (s' : Bytes) × (put_space (suc i) s p ≡ done (some (s', p + 1)))
      × IsText (t ++ (32 ∷ [])) s' (p + 1)
unfolding put_space
space_put t s p i h room =
    let (s', e, (m, e', l)) = write t (32 ∷ []) s p h (omega arith) in
    (
      s',
      rw (lt→ltb (p + 1) 255 (omega (arith, h.3)), e) refl,
      (
        m,
        e' ∙ sym (append_assoc t (32 ∷ []) (zeros m)),
        omega (arith, length-append t (32 ∷ [])),
        omega (arith, length-append t (32 ∷ []), h.3),
      ),
    )

-- The digits of a byte, and the NUL behind them.
byte_put :
    (t s : Bytes) (p b : ℕ)
    → IsText t s p
    → length t < 254
    → (s' : Bytes) × (store s p (hex_text (b ∷ []) ++ (0 ∷ [])) ≡ done s')
      × IsText (t ++ byte_text b) s' (p + 2)
byte_put t s p b h room =
    let (s', e, (m, e', l)) = write t (hex_text (b ∷ []) ++ (0 ∷ [])) s p h (omega arith) in
    (
      s',
      e,
      (
        suc m,
        e' ∙ sym (append_assoc t (byte_text b) (zeros (suc m))),
        omega (arith, length-append t (byte_text b)),
        omega (arith, length-append t (byte_text b), h.3),
      ),
    )

bytes_put :
    (v t s before behind : Bytes) (p j a : ℕ)
    → IsText t s p
    → length t + 2 * length v < 256
    → j ≡ length before
    → (s' : Bytes) × (p' : ℕ) × (put_bytes s p (pointer a (before ++ (v ++ behind))) j (length v)
        ≡ done (some (s', p')))
      × IsText (t ++ hex_text v) s' p'
unfolding put_bytes
bytes_put [] t s before behind p j a (m, e, l, hp) room hj =
    (s, p, refl, subst (λ z. IsText z s p) (sym (append-nil t)) (m, e, l, hp))
bytes_put (b ∷ v) t s before behind p j a h room hj =
    let (s1, e1, h1) = byte_put t s p b h (omega arith) in
    let (s', p', e, h') =
      bytes_put v (t ++ byte_text b) s1 (before ++ (b ∷ [])) behind (p + 2) (j + 1) a h1
        (omega (arith, length-append t (byte_text b)))
        (omega (arith, length-append before (b ∷ []))) in
    (
      s',
      p',
      rw
          (
            load_part before (b ∷ []) (v ++ behind) j 1 hj refl,
            e1,
            ← append_assoc before (b ∷ []) (v ++ behind),
            e,
          )
          refl,
      subst (λ z. IsText z s' p') (append_assoc t (byte_text b) (hex_text v)) h',
    )

-- The memory that a pointer has, from what was read there.
done_eq : {x y : Bytes} → ◌≡◌ {A = Run Bytes} (done x) (done y) → x ≡ y
done_eq h = cc

loaded : (memory v : Bytes) (n : ℕ) → load memory 0 n ≡ done v → memory ≡ v ++ drop n memory
unfolding load
loaded memory v n h = elim (Bool-cases (leb (0 + n) (length memory))) [
  | inr short ↦ absurd (cc (rw short at h))
  | inl inside ↦
      sym (take-append-drop n memory) ∙ ap (λ z. z ++ drop n memory) (done_eq (rw inside at h))
]

read_inside :
    (base : Base) (v : Bytes)
    → read_base base (length v) ≡ done v
    → (a : ℕ) × (behind : Bytes) × (base ≡ pointer a (v ++ behind))
read_inside (word n) v h = cc
read_inside (pointer a memory) v h =
    (a, drop (length v) memory, ap (pointer a) (loaded memory v (length v) h))

pub blob_put :
    (t s : Bytes) (p : ℕ) (v : Bytes) (base : Base)
    → IsText t s p
    → length t + 2 * length v < 255
    → read_base base (length v) ≡ done v
    → (s' : Bytes) × (p' : ℕ) × (put_hex s p base (length v) ≡ done (some (s', p')))
      × IsText (t ++ hex_text v) s' p'
unfolding put_hex
blob_put t s p v base h room r =
    let (a, behind, e) = read_inside base v r in
    let (s', p', e', h') = bytes_put v t s [] behind p 0 a h (omega arith) refl in
    (s', p', rw (lt→ltb (p + length v * 2) 255 (omega (arith, h.3)), e, e') refl, h')

pub blob-Shown :
    (v : Bytes) (y : Param)
    → length v < 2 ^ 14
    → y.type ≡ length v
    → (type_is_integer y.type ≡ false)
      × (blob_is_string y.type ≡ false)
      × (blob_size y.type ≡ length v)
unfolding blob_is_string
blob-Shown v y h t = (
  rw t (type_is_integer_of_lt (length v) (omega arith)),
  rw t (ground (arith, and_0x4000 (length v))),
  ap blob_size t ∙ blob_size_lem (length v) ∙ omega arith,
)

hex_at :
    (s : Bytes) (p n k : ℕ) (base : Base) (r : Run Printing)
    → n ≡ k
    → put_hex s p base k ≡ r
    → put_hex s p base n ≡ r
hex_at s p n k base r e h = ap (put_hex s p base) e ∙ h

-- The blob of an entry, and what follows.
pub value_put :
    (rest : Printing → Run Printing) (t s : Bytes) (p : ℕ) (v : Bytes) (y : Param)
    → IsText t s p
    → length t + 2 * length v < 255
    → length v < 2 ^ 14
    → IsRead (blob v) y
    → (s' : Bytes) × (p' : ℕ) × (put_value rest s p y ≡ rest (some (s', p')))
      × IsText (t ++ hex_text v) s' p'
unfolding put_value
value_put rest t s p v y h room small (type, r) =
    let (integer, string, size) = blob-Shown v y small type in
    let (s', p', e, h') = blob_put t s p v y.base h room r in
    (
      s',
      p',
      rw (integer, string, hex_at s p (blob_size y.type) (length v) y.base _ size e) refl,
      h',
    )
