-- ===== src/Tools/Text/Numbers.antt =====
-- The functions of the standard library read the numbers that sprintf writes, for
-- pkg/src/ipc_send.c.
use af_ipc.Common.{
  ℕ, zero, suc, ◌+◌, ◌-◌, ◌*◌, ◌/◌, ◌%◌, ◌^◌, ◌<◌, ◌≡◌, refl, ap, sym, ◌∙◌, arith, true, [], ◌∷◌,
  ◌++◌, some, ltb, inl, inr, Bool-cases, and_true, leb, le→leb, leb→le, gt→leb, ltb→lt, ne→==, ℤ,
  pos, negsuc, IsSigned, length,
}
use native.Mathlib.Nat.{pow-suc}
use af_ipc.Rpc.Memory.{Bytes}
use af_ipc.Tools.Text.{
  is_digit, all_digits, is_digits, skip_spaces, digits_value, signed_value, strtol, strtoul,
  to_int32, to_uint32, decimal_digits, unsigned_text, signed_text, hexnybble, hex_digit, is_xdigit,
  hex_text, is_xdigits, saturate, negate,
}
use af_ipc.Tools.Format.{is_integer_text}
use af_ipc.Tools.Parser.{hex_bytes}

abbrev pub AreBytes : Bytes → Type 0
AreBytes [] = Unit {0}
AreBytes (b ∷ v) = (b < 2 ^ 8) × AreBytes v

digit-IsDigit : (d : ℕ) → d < 10 → is_digit (48 + d) ≡ true
digit-IsDigit d h = ground arith

all_digits-append :
    (xs ys : Bytes) → all_digits xs ≡ true → all_digits ys ≡ true → all_digits (xs ++ ys) ≡ true
all_digits-append [] ys h k = k
all_digits-append (c ∷ xs) ys h k =
    let (d, r) = and_true (is_digit c) (all_digits xs) h in rw (d, all_digits-append xs ys r k) refl

digits_value-append :
    (n : ℕ) (xs ys : Bytes)
    → all_digits xs ≡ true
    → digits_value n (xs ++ ys) ≡ digits_value (digits_value n xs) ys
digits_value-append n [] ys h = refl
digits_value-append n (c ∷ xs) ys h =
    let (d, r) = and_true (is_digit c) (all_digits xs) h in
    rw d (digits_value-append (n * 10 + (c - 48)) xs ys r)

decimal_digits-AllDigits : (k n : ℕ) → all_digits (decimal_digits k n) ≡ true
decimal_digits-AllDigits zero n = refl
decimal_digits-AllDigits (suc k) n = elim (Bool-cases (ltb n 10)) [
  | inl small ↦ rw small (rw (digit-IsDigit n (ltb→lt n 10 small)) refl)
  | inr large ↦ rw large (
      all_digits-append (decimal_digits k (n / 10)) ((48 + n % 10) ∷ [])
        (decimal_digits-AllDigits k (n / 10)) (rw (digit-IsDigit (n % 10) (omega arith)) refl))
]

digits_value-decimal : (k n : ℕ) → n < 10 ^ k → digits_value 0 (decimal_digits k n) ≡ n
digits_value-decimal zero n h = omega arith
digits_value-decimal (suc k) n h = elim (Bool-cases (ltb n 10)) [
  | inl small ↦ rw small (rw (digit-IsDigit n (ltb→lt n 10 small)) (omega arith))
  | inr large ↦ rw large (
      rw
        (
          digits_value-append 0 (decimal_digits k (n / 10)) ((48 + n % 10) ∷ [])
              (decimal_digits-AllDigits k (n / 10)),
          digits_value-decimal k (n / 10) (omega (arith, pow-suc 10 k)),
        )
        (rw (digit-IsDigit (n % 10) (omega arith)) (omega arith)))
]

-- The text of a number is not empty, and begins with a digit.
decimal_digits-cons : (k n : ℕ) → (c : ℕ) × (s : Bytes) × (decimal_digits (suc k) n ≡ c ∷ s)
decimal_digits-cons k n = elim (Bool-cases (ltb n 10)) [
  | inl small ↦ rw small (_, _, refl)
  | inr large ↦ rw large (behind (decimal_digits k (n / 10)))
]
  where
    behind : (xs : Bytes) → (c : ℕ) × (s : Bytes) × (xs ++ ((48 + n % 10) ∷ []) ≡ c ∷ s)
    behind [] = (_, _, refl)
    behind (x ∷ xs) = (_, _, refl)

digit-skip : (c : ℕ) (s : Bytes) → is_digit c ≡ true → skip_spaces (c ∷ s) ≡ c ∷ s
digit-skip c s h =
    let (low, high) = and_true (leb 48 c) (leb c 57) h in
    rw
      (
        ne→== c 32 (omega (arith, leb→le 48 c low)),
        gt→leb c 13 (omega (arith, leb→le 48 c low)),
        le→leb 9 c (omega (arith, leb→le 48 c low)),
      )
      refl

digit-signed :
    (c : ℕ) (s : Bytes) → is_digit c ≡ true → signed_value (c ∷ s) ≡ pos (digits_value 0 (c ∷ s))
digit-signed c s h =
    let (low, high) = and_true (leb 48 c) (leb c 57) h in
    rw (ne→== c 45 (omega (arith, leb→le 48 c low)), ne→== c 43 (omega (arith, leb→le 48 c low)))
      refl

digits_value-unsigned_text : (n : ℕ) → n < 2 ^ 33 → digits_value 0 (unsigned_text n) ≡ n
unfolding unsigned_text
digits_value-unsigned_text n h = digits_value-decimal 10 n (omega arith)

pub unsigned_text-IsDigits : (n : ℕ) → is_digits (some (unsigned_text n)) ≡ true
unfolding unsigned_text
unsigned_text-IsDigits n = decimal_digits-AllDigits 10 n

pub unsigned_text-cons :
    (n : ℕ) → (c : ℕ) × (s : Bytes) × (unsigned_text n ≡ c ∷ s) × (is_digit c ≡ true)
unfolding unsigned_text
unsigned_text-cons n =
    let (c, s, e) = decimal_digits-cons 9 n in
    let all = sym (ap all_digits e) ∙ decimal_digits-AllDigits 10 n in
    (c, s, e, (and_true (is_digit c) (all_digits s) all).0)

signed_value-unsigned_text :
    (n : ℕ) → n < 2 ^ 33 → signed_value (skip_spaces (unsigned_text n)) ≡ pos n
signed_value-unsigned_text n h =
    let (c, s, e, d) = unsigned_text-cons n in
    rw (e, digit-skip c s d, digit-signed c s d)
      (ap pos (sym (ap (digits_value 0) e) ∙ digits_value-unsigned_text n h))

-- strtoul and strtol, with the conversions to 32 bits, read what %u and %d write.
pub strtoul-unsigned_text : (n : ℕ) → n < 2 ^ 32 → to_uint32 (strtoul (unsigned_text n)) ≡ n
strtoul-unsigned_text n h = rw (signed_value-unsigned_text n (omega arith)) (omega arith)

to_int32-saturate : (z : ℤ) → IsSigned 32 z → to_int32 (saturate z) ≡ z
to_int32-saturate (pos n) h = ground arith
to_int32-saturate (negsuc n) h = ground arith

negate_next : (n m : ℕ) → m ≡ suc n → negate m ≡ negsuc n
negate_next n m e = ap negate e

pub strtol-signed_text : (z : ℤ) → IsSigned 32 z → to_int32 (strtol (signed_text z)) ≡ z
strtol-signed_text (pos n) h =
    rw (signed_value-unsigned_text n (omega arith)) (to_int32-saturate (pos n) h)
strtol-signed_text (negsuc n) h =
    rw (digits_value-unsigned_text (n + 1) (omega arith), negate_next n (n + 1) (omega arith))
      (to_int32-saturate (negsuc n) h)

pub signed_text-IsInteger : (z : ℤ) → is_integer_text (signed_text z) ≡ true
signed_text-IsInteger (pos n) =
    let (c, s, e, d) = unsigned_text-cons n in
    let (low, high) = and_true (leb 48 c) (leb c 57) d in
    rw (e, ne→== c 45 (omega (arith, leb→le 48 c low)))
      (sym (ap (λ t. is_digits (some t)) e) ∙ unsigned_text-IsDigits n)
signed_text-IsInteger (negsuc n) = unsigned_text-IsDigits (n + 1)

-- hexnybble reads the digits of %02x.
hexnybble-hex_digit : (d : ℕ) → d < 16 → hexnybble (hex_digit d) ≡ d
hexnybble-hex_digit d h = ground arith

hex_digit-IsXdigit : (d : ℕ) → d < 16 → is_xdigit (hex_digit d) ≡ true
hex_digit-IsXdigit d h = ground arith

pub hex_bytes-hex_text : (v : Bytes) → AreBytes v → hex_bytes (hex_text v) ≡ v
hex_bytes-hex_text [] h = refl
hex_bytes-hex_text (b ∷ v) h =
    rw
      (
        hexnybble-hex_digit (b / 16) (omega arith),
        hexnybble-hex_digit (b % 16) (omega arith),
        hex_bytes-hex_text v h.1,
      )
      (ap (λ k. k ∷ v) (omega arith))

pub hex_text-IsXdigits : (v : Bytes) → AreBytes v → is_xdigits (some (hex_text v)) ≡ true
hex_text-IsXdigits [] h = refl
hex_text-IsXdigits (b ∷ v) h =
    rw (hex_digit-IsXdigit (b / 16) (omega arith), hex_digit-IsXdigit (b % 16) (omega arith))
      (hex_text-IsXdigits v h.1)

pub length-hex_text : (v : Bytes) → length (hex_text v) ≡ 2 * length v
length-hex_text [] = refl
length-hex_text (b ∷ v) = omega (arith, length-hex_text v)
