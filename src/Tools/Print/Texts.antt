-- ===== src/Tools/Print/Texts.antt =====
-- The texts that the tools pkg/src/ipc_send.c and pkg/src/ipc_wait.c print parameters as.
use af_ipc.Common.{
  ℕ, zero, suc, ◌+◌, ◌/◌, ◌%◌, ◌^◌, ◌≤◌, ◌<◌, ◌≡◌, ◌≢◌, refl, arith, true, [], ◌∷◌, ◌++◌, some, inl,
  inr, Bool-cases, and_true, ltb, lt→ltb, leb, leb→le, ℤ, pos, negsuc, IsSigned, done, length,
  length-append,
}
use native.Mathlib.Nat.{pow-suc}
use af_ipc.Rpc.Memory.{Bytes}
use af_ipc.Rpc.Types.{type_is_integer}
use af_ipc.Rpc.Items.{Item, uint8, uint16, uint32, int8, int16, int32, blob, IsItem}
use af_ipc.Rpc.Params.{Param}
use af_ipc.Rpc.Params.ReadBack.{IsRead}
use af_ipc.Tools.Text.{
  is_digit, all_digits, decimal_digits, unsigned_text, signed_text, hex_digit, hex_text,
}
use af_ipc.Tools.Text.Numbers.{unsigned_text-IsDigits}
use af_ipc.Tools.Arguments.{value_text}
use af_ipc.Tools.Print.{integer_text, c_string}

abbrev pub NoNul : Bytes → Type 0
NoNul [] = Unit {0}
NoNul (c ∷ s) = (c ≢ 0) × NoNul s

pub NoNul-append : (s t : Bytes) → NoNul s → NoNul t → NoNul (s ++ t)
NoNul-append [] t h k = k
NoNul-append (c ∷ s) t h k = (h.0, NoNul-append s t h.1 k)

digits-NoNul : (s : Bytes) → all_digits s ≡ true → NoNul s
digits-NoNul [] h = tt
digits-NoNul (c ∷ s) h =
    let (d, r) = and_true (is_digit c) (all_digits s) h in
    let (low, high) = and_true (leb 48 c) (leb c 57) d in
    (omega (arith, leb→le 48 c low), digits-NoNul s r)

hex_digit-ne : (d : ℕ) → hex_digit d ≢ 0
hex_digit-ne d h = ground arith

pub hex_text-NoNul : (v : Bytes) → NoNul (hex_text v)
hex_text-NoNul [] = tt
hex_text-NoNul (b ∷ v) = (hex_digit-ne (b / 16), (hex_digit-ne (b % 16), hex_text-NoNul v))

signed_text-NoNul : (z : ℤ) → NoNul (signed_text z)
signed_text-NoNul (pos n) = digits-NoNul (unsigned_text n) (unsigned_text-IsDigits n)
signed_text-NoNul (negsuc n) =
    (omega arith, digits-NoNul (unsigned_text (n + 1)) (unsigned_text-IsDigits (n + 1)))

pub value_text-NoNul : (x : Item) → NoNul (value_text x)
value_text-NoNul (uint8 v) = digits-NoNul (unsigned_text v) (unsigned_text-IsDigits v)
value_text-NoNul (uint16 v) = digits-NoNul (unsigned_text v) (unsigned_text-IsDigits v)
value_text-NoNul (uint32 v) = digits-NoNul (unsigned_text v) (unsigned_text-IsDigits v)
value_text-NoNul (int8 v) = signed_text-NoNul v
value_text-NoNul (int16 v) = signed_text-NoNul v
value_text-NoNul (int32 v) = signed_text-NoNul v
value_text-NoNul (blob v) = hex_text-NoNul v

-- A text before a NUL is the string.
pub c_string_text : (t rest : Bytes) → NoNul t → c_string (t ++ (0 ∷ rest)) ≡ done t
c_string_text [] rest h = refl
c_string_text (zero ∷ t) rest h = absurd (h.0 refl)
c_string_text (suc c ∷ t) rest h = rw (c_string_text t rest h.1) refl

-- As many digits as the number has.
decimal_digits-Length : (k j n : ℕ) → n < 10 ^ suc j → length (decimal_digits k n) ≤ suc j
decimal_digits-Length zero j n h = omega arith
decimal_digits-Length (suc k) zero n h = rw (lt→ltb n 10 (omega arith)) (omega arith)
decimal_digits-Length (suc k) (suc j) n h = elim (Bool-cases (ltb n 10)) [
  | inl small ↦ rw small (omega arith)
  | inr large ↦ rw large (
      omega (
        arith,
        length-append (decimal_digits k (n / 10)) ((48 + n % 10) ∷ []),
        decimal_digits-Length k j (n / 10) (omega (arith, pow-suc 10 (suc j))),
      ))
]

-- The numbers whose texts fit in the tools' buffer of eleven bytes.
abbrev pub IsShort : ℤ → Type 0
IsShort (pos n) = Unit {0}
IsShort (negsuc n) = n < 999999999

-- The numbers of a type, which the tools can print.
abbrev pub IsShown : Item → Type 0
IsShown (int32 z) = IsSigned 32 z × IsShort z
IsShown (blob v) = ⊥
IsShown x = IsItem x

unsigned_text-Length : (n j : ℕ) → n < 10 ^ suc j → length (unsigned_text n) ≤ suc j
unfolding unsigned_text
unsigned_text-Length n j h = decimal_digits-Length 10 j n h

signed_text-Length : (z : ℤ) → IsSigned 32 z → IsShort z → length (signed_text z) ≤ 10
signed_text-Length (pos n) h k = unsigned_text-Length n 9 (omega arith)
signed_text-Length (negsuc n) h k = omega (arith, unsigned_text-Length (n + 1) 8 (omega arith))

wide : (z : ℤ) → IsSigned 16 z → IsSigned 32 z × IsShort z
wide (pos n) h = (omega arith, tt)
wide (negsuc n) h = (omega arith, omega arith)

wide8 : (z : ℤ) → IsSigned 8 z → IsSigned 32 z × IsShort z
wide8 (pos n) h = (omega arith, tt)
wide8 (negsuc n) h = (omega arith, omega arith)

pub value_text-Length : (x : Item) → IsShown x → length (value_text x) ≤ 10
value_text-Length (uint8 v) h = unsigned_text-Length v 9 (omega arith)
value_text-Length (uint16 v) h = unsigned_text-Length v 9 (omega arith)
value_text-Length (uint32 v) h = unsigned_text-Length v 9 (omega arith)
value_text-Length (int8 z) h = let (s, k) = wide8 z h in signed_text-Length z s k
value_text-Length (int16 z) h = let (s, k) = wide z h in signed_text-Length z s k
value_text-Length (int32 z) h = signed_text-Length z h.0 h.1
value_text-Length (blob v) h = absurd h

-- The tools print the number that was sent.
pub number-Shown :
    (x : Item) (y : Param)
    → IsShown x
    → IsRead x y
    → (type_is_integer y.type ≡ true) × (integer_text y.type y.base ≡ some (value_text x))
unfolding type_is_integer integer_text
number-Shown (uint8 v) y h (t, r, w) = (rw t refl, rw (t, w) refl)
number-Shown (uint16 v) y h (t, r, w) = (rw t refl, rw (t, w) refl)
number-Shown (uint32 v) y h (t, r, w) = (rw t refl, rw (t, w) refl)
number-Shown (int8 v) y h (t, r, w) = (rw t refl, rw (t, w) refl)
number-Shown (int16 v) y h (t, r, w) = (rw t refl, rw (t, w) refl)
number-Shown (int32 v) y h (t, r, w) = (rw t refl, rw (t, w) refl)
number-Shown (blob v) y h r = absurd h
