-- ===== src/Rpc/Params/Readable.antt =====
-- The entries that af_rpc_get_params_from_buffer of pkg/src/af_rpc.c fills on arbitrary bytes, one
-- round at a time.
pub mod Loop
use af_ipc.Common.{
  ℕ, zero, suc, ◌+◌, ◌≤◌, ◌<◌, ◌≡◌, Bool, true, false, not, ◌||◌, ◌&&◌, arith, inl, inr, Bool-cases,
  if_both, leb, ltb→ge, ◌==◌, List, [], ◌∷◌, Run, fault, done, ◌>>=◌, length, length-drop, bit_and,
  drop, set,
}
use af_ipc.Rpc.Memory.{Bytes, load-Returns, getlen}
use af_ipc.Rpc.Types.{
  ok, err, type_is_integer, type_is_blob, get_size_of_type, blob_size, type_uint8, type_uint16,
  type_uint32, type_int8, type_int16, type_int32, type_integer_type_mask,
}
use af_ipc.Rpc.Params.{Param, read_base, pointer}
use af_ipc.Rpc.Params.Parse.{
  Entry, read_int, read_integer, read_typed, read_value, read_param, runs_over,
}

-- Behind the pointer of a blob there are the bytes that its type tells.
abbrev pub IsReadable : Param → Type 0
IsReadable y =
    type_is_integer y.type ≡ false
    → (v : Bytes) × (read_base y.base (blob_size y.type) ≡ done v) × (length v ≡ blob_size y.type)

-- The first `n` entries.
abbrev pub AllReadable : ℕ → List Param → Type 0
AllReadable zero ys = Unit {0}
AllReadable (suc n) [] = ⊥
AllReadable (suc n) (y ∷ ys) = IsReadable y × AllReadable n ys

pub set-AllReadable :
    (n : ℕ) (ys : List Param) (y : Param)
    → AllReadable n ys
    → n < length ys
    → IsReadable y
    → AllReadable (suc n) (set ys n y)
set-AllReadable n [] y h lt r = absurd (omega arith)
set-AllReadable zero (z ∷ ys) y h lt r = (r, tt)
set-AllReadable (suc n) (z ∷ ys) y h lt r = (h.0, set-AllReadable n ys y h.1 (omega arith) r)

-- A round that goes on leaves a readable entry.
abbrev pub IsGood : Run Entry → Type 0
IsGood fault = Unit {0}
IsGood (done (ok q, y)) = IsReadable y
IsGood (done (err e, y)) = Unit {0}

loaded-IsGood :
    (m : Run Bytes) (q : ℕ) (f : Bytes → Param)
    → ((v : Bytes) → type_is_integer (f v).type ≡ true)
    → IsGood (m >>= λ v. done (ok q, f v))
loaded-IsGood fault q f h = tt
loaded-IsGood (done v) q f h = λ e. absurd (cc (h v))

integer-IsGood :
    (buf : Bytes) (p type : ℕ) (x : Param)
    → type_is_integer type ≡ true
    → IsGood (read_integer buf p type x)
unfolding read_integer read_int
integer-IsGood buf p type x h =
    if_both IsGood (type == type_int8) _ _ (loaded-IsGood _ _ _ (λ v. h)) (
      if_both IsGood (type == type_uint8) _ _ (loaded-IsGood _ _ _ (λ v. h)) (
        if_both IsGood (type == type_int16) _ _ (loaded-IsGood _ _ _ (λ v. h)) (
          if_both IsGood (type == type_uint16) _ _ (loaded-IsGood _ _ _ (λ v. h)) (
            if_both IsGood (type == type_int32 || type == type_uint32) _ _
              (loaded-IsGood _ _ _ (λ v. h)) tt))))

blob_inside :
    (address : ℕ) (buf : Bytes) (p type len : ℕ)
    → len ≤ length buf
    → type_is_integer type ≡ false
    → runs_over p (get_size_of_type type) len ≡ false
    → (v : Bytes) × (read_base (pointer address (drop p buf)) (blob_size type) ≡ done v)
      × (length v ≡ blob_size type)
unfolding get_size_of_type blob_size
blob_inside address buf p type len fits blob inside =
    load-Returns (drop p buf) 0 (bit_and type 0x3fff)
      (omega (arith, length-drop p buf, ltb→ge len (p + bit_and type 0x3fff) (rw blob at inside)))

typed-IsGood :
    (address : ℕ) (buf : Bytes) (permissive : Bool) (p type len : ℕ) (x : Param)
    → len ≤ length buf
    → runs_over p (get_size_of_type type) len ≡ false
    → IsGood (read_typed address buf permissive p type x)
unfolding read_typed
typed-IsGood address buf permissive p type len x fits inside =
    elim (Bool-cases (type_is_integer type)) [
      | inl e ↦ rw e (
          if_both IsGood (not (bit_and type type_integer_type_mask == type)) _ _ tt (
            if_both IsGood (not permissive && not (x.type == type)) _ _ tt
              (integer-IsGood buf p type x e)))
      | inr e ↦ rw e (
          if_both IsGood (not permissive && not (type_is_blob x.type)) _ _ tt
            λ _. blob_inside (address + p) buf p type len fits e inside)
    ]

module _ (address : ℕ) (buf : Bytes) (len : ℕ) (permissive : Bool) (fits : len ≤ length buf) where
  value-IsGood : (p type : ℕ) (x : Param) → IsGood (read_value address buf len permissive p type x)
  unfolding read_value
  value-IsGood p type x = elim (Bool-cases (runs_over p (get_size_of_type type) len)) [
    | inl past ↦ rw past tt
    | inr inside ↦ rw inside (typed-IsGood address buf permissive p type len x fits inside)
  ]

  got-IsGood :
      (m : Run ℕ) (p : ℕ) (x : Param)
      → IsGood (m >>= λ type. read_value address buf len permissive p type x)
  got-IsGood fault p x = tt
  got-IsGood (done type) p x = value-IsGood p type x

  pub param-IsGood : (p : ℕ) (x : Param) → IsGood (read_param address buf len permissive p x)
  unfolding read_param
  param-IsGood p x = if_both IsGood (leb (p + 2) len) _ _ (got-IsGood (getlen buf p) (p + 2) x) tt
