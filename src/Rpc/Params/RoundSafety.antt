-- ===== src/Rpc/Params/RoundSafety.antt =====
-- One round of af_rpc_get_params_from_buffer of pkg/src/af_rpc.c on arbitrary bytes.
use af_ipc.Common.{
  ℕ, ◌+◌, ◌≤◌, ◌<◌, ◌≡◌, refl, sym, ap, ◌∙◌, Bool, true, false, not, ◌||◌, ◌&&◌, arith, inl, inr,
  leb, ltb→ge, leb→le, ==→eq, ◌==◌, ℤ, pos, negsuc, Run, fault, done, Returns, if-Returns, or-cases,
  length, bit_and,
}
use af_ipc.Rpc.Memory.{Bytes, load-Returns, getlen-Returns}
use af_ipc.Rpc.Types.{
  ok, err, type_is_integer, type_is_blob, get_size_of_type, type_uint8, type_uint16, type_uint32,
  type_int8, type_int16, type_int32, type_integer_type_mask,
}
use af_ipc.Rpc.Params.{Param}
use af_ipc.Rpc.Params.Parse.{
  Entry, read_int, read_integer, read_typed, read_value, read_param, runs_over, size_nat, extend8,
  extend16,
}

-- The round moved on, within the length.
abbrev IsNext : ℕ → ℕ → Entry → Type 0
IsNext p len (ok q, y) = (p ≤ q) × (q ≤ len)
IsNext p len (err e, y) = Unit {0}

read_int-safe :
    (buf : Bytes) (p type size len : ℕ) (extend : ℕ → ℕ)
    → p + size ≤ len
    → len ≤ length buf
    → Returns (IsNext p len) (read_int buf p type size extend)
unfolding read_int
read_int-safe buf p type size len extend h fits =
    let (v, e, l) = load-Returns buf p size (omega arith) in rw e (omega arith, h)

within : (p len : ℕ) (s : ℤ) → p ≤ len → runs_over p s len ≡ false → p + size_nat s ≤ len
within p len (pos n) h e = ltb→ge len (p + n) e
within p len (negsuc k) h e = omega arith

-- The size of a type that a test of the switch has named.
size_in :
    (p len t c k : ℕ)
    → get_size_of_type c ≡ pos k
    → (t == c) ≡ true
    → p ≤ len
    → runs_over p (get_size_of_type t) len ≡ false
    → p + k ≤ len
size_in p len t c k e h hp over =
    within p len (pos k) hp
      (ap (λ s. runs_over p s len) (sym (ap get_size_of_type (==→eq t c h) ∙ e)) ∙ over)

read_integer-safe :
    (buf : Bytes) (p type len : ℕ) (x : Param)
    → p ≤ len
    → len ≤ length buf
    → runs_over p (get_size_of_type type) len ≡ false
    → Returns (IsNext p len) (read_integer buf p type x)
unfolding read_integer get_size_of_type type_is_integer
read_integer-safe buf p type len x hp fits over =
    if-Returns (IsNext p len) (type == type_int8) _ _ (known type_int8 1 refl extend8) λ _.
      if-Returns (IsNext p len) (type == type_uint8) _ _ (known type_uint8 1 refl (λ v. v)) λ _.
        if-Returns (IsNext p len) (type == type_int16) _ _ (known type_int16 2 refl extend16) λ _.
          if-Returns (IsNext p len) (type == type_uint16) _ _ (known type_uint16 2 refl (λ v. v))
            λ _.
              if-Returns (IsNext p len) (type == type_int32 || type == type_uint32) _ _
                (λ e. elim (or-cases (type == type_int32) (type == type_uint32) e) [
                  | inl h ↦ known type_int32 4 refl (λ v. v) h
                  | inr h ↦ known type_uint32 4 refl (λ v. v) h
                ])
                λ _. tt
  where
    known :
        (c k : ℕ)
        → get_size_of_type c ≡ pos k
        → (extend : ℕ → ℕ) → (type == c) ≡ true
        → Returns (IsNext p len) (read_int buf p type k extend)
    known c k e extend h =
        read_int-safe buf p type k len extend (size_in p len type c k e h hp over) fits

read_typed-safe :
    (address : ℕ) (buf : Bytes) (permissive : Bool) (p type len : ℕ) (x : Param)
    → p ≤ len
    → len ≤ length buf
    → runs_over p (get_size_of_type type) len ≡ false
    → Returns (IsNext p len) (read_typed address buf permissive p type x)
unfolding read_typed
read_typed-safe address buf permissive p type len x hp fits over =
    if-Returns (IsNext p len) (type_is_integer type) _ _
      (λ _.
        if-Returns (IsNext p len) (not (bit_and type type_integer_type_mask == type)) _ _ (λ _. tt)
          λ _.
            if-Returns (IsNext p len) (not permissive && not (x.type == type)) _ _ (λ _. tt)
              λ _. read_integer-safe buf p type len x hp fits over)
      λ _.
        if-Returns (IsNext p len) (not permissive && not (type_is_blob x.type)) _ _ (λ _. tt)
          λ _. (omega arith, within p len (get_size_of_type type) hp over)

-- A round that goes on has moved, and stays within the length.
abbrev pub HasMoved : ℕ → ℕ → Entry → Type 0
HasMoved p len (ok q, y) = (p < q) × (q ≤ len)
HasMoved p len (err e, y) = Unit {0}

IsNext-HasMoved :
    (p len : ℕ) (r : Run Entry) → Returns (IsNext (p + 2) len) r → Returns (HasMoved p len) r
IsNext-HasMoved p len (done (ok q, y)) h = omega arith
IsNext-HasMoved p len (done (err e, y)) h = tt
IsNext-HasMoved p len fault h = h

pub read_param-safe :
    (address : ℕ) (buf : Bytes) (len : ℕ) (permissive : Bool) (p : ℕ) (x : Param)
    → len ≤ length buf
    → Returns (HasMoved p len) (read_param address buf len permissive p x)
unfolding read_param read_value
read_param-safe address buf len permissive p x fits =
    if-Returns (HasMoved p len) (leb (p + 2) len) _ _
      (λ h.
        let hp = leb→le (p + 2) len h in
        let (type, e) = getlen-Returns buf p (omega arith) in
        rw e (
          IsNext-HasMoved p len _ (
            if-Returns (IsNext (p + 2) len) (runs_over (p + 2) (get_size_of_type type) len) _ _
              (λ _. tt)
              λ over. read_typed-safe address buf permissive (p + 2) type len x hp fits over)))
      λ _. tt
