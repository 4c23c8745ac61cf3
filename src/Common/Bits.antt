-- ===== src/Common/Bits.antt =====
-- `&` and `|` at variables: the law of the lowest digit, from the recursion that the native
-- operations stand for, and the laws that split a mask at bit `k`.
use Prim.Native.Nat.{ℕ, zero, suc, ◌+◌, ◌-◌, ◌*◌, ◌/◌, ◌%◌, ◌^◌, ◌≤◌, ◌<◌, min, max}
use Prim.Native.Nat.{bit_and, bit_or, digits, bit_and-bitwise, bit_or-bitwise}
use mathlib.Core.Path.{◌≡◌, refl, ap, sym, ◌∙◌}
use native.Mathlib.Nat.{pow-suc, one-le-pow, div-add-mod', mod-lt}
use native.Mathlib.Omega.{arith}

-- More digits than the first number has change nothing.
module _ (empty : ℕ → ℕ) (digit : ℕ → ℕ → ℕ) where
  digits-zero : (fuel b : ℕ) → digits empty digit fuel zero b ≡ empty b
  digits-zero zero b = refl
  digits-zero (suc fuel) b = refl

  digits_enough :
      (a b low high : ℕ)
      → low ≤ high
      → a ≤ low
      → digits empty digit high a b ≡ digits empty digit low a b
  digits_enough zero b low high more fits = digits-zero high b ∙ sym (digits-zero low b)
  digits_enough (suc a) b zero high more fits = absurd (omega arith)
  digits_enough (suc a) b (suc low) zero more fits = absurd (omega arith)
  digits_enough (suc a) b (suc low) (suc high) more fits =
      ap (λ t. t * 2 + digit (suc a % 2) (b % 2))
        (digits_enough (suc a / 2) (b / 2) low high (omega arith) (omega arith))

bit_and_halves : (a b : ℕ) → bit_and a b ≡ min (a % 2) (b % 2) + 2 * bit_and (a / 2) (b / 2)
bit_and_halves zero b = omega (arith, bit_and-bitwise 0 b, bit_and-bitwise 0 (b / 2))
bit_and_halves (suc a) b = omega (
  arith,
  bit_and-bitwise (suc a) b,
  bit_and-bitwise (suc a / 2) (b / 2),
  digits_enough (λ _. 0) min (suc a / 2) (b / 2) (suc a / 2) a (omega arith) (omega arith),
)

bit_or_halves : (a b : ℕ) → bit_or a b ≡ max (a % 2) (b % 2) + 2 * bit_or (a / 2) (b / 2)
bit_or_halves zero b = omega (arith, bit_or-bitwise 0 b, bit_or-bitwise 0 (b / 2))
bit_or_halves (suc a) b = omega (
  arith,
  bit_or-bitwise (suc a) b,
  bit_or-bitwise (suc a / 2) (b / 2),
  digits_enough (λ y. y) max (suc a / 2) (b / 2) (suc a / 2) a (omega arith) (omega arith),
)

and-zero_fuel : (n a : ℕ) → a ≤ n → bit_and a 0 ≡ 0
and-zero_fuel n zero h = bit_and-bitwise 0 0
and-zero_fuel zero (suc a) h = absurd (omega arith)
and-zero_fuel (suc n) (suc a) h =
    omega (arith, bit_and_halves (suc a) 0, and-zero_fuel n (suc a / 2) (omega arith))

pub bit_and-zero : (a : ℕ) → bit_and a 0 ≡ 0
bit_and-zero a = and-zero_fuel a a (omega arith)

pub zero-bit_and : (b : ℕ) → bit_and 0 b ≡ 0
zero-bit_and b = bit_and-bitwise 0 b

or-zero_fuel : (n a : ℕ) → a ≤ n → bit_or a 0 ≡ a
or-zero_fuel n zero h = bit_or-bitwise 0 0
or-zero_fuel zero (suc a) h = absurd (omega arith)
or-zero_fuel (suc n) (suc a) h =
    omega (arith, bit_or_halves (suc a) 0, or-zero_fuel n (suc a / 2) (omega arith))

pub bit_or-zero : (a : ℕ) → bit_or a 0 ≡ a
bit_or-zero a = or-zero_fuel a a (omega arith)

pub zero-bit_or : (b : ℕ) → bit_or 0 b ≡ b
zero-bit_or b = bit_or-bitwise 0 b

double-pow : (q k : ℕ) → q * 2 ^ suc k ≡ 2 * (q * 2 ^ k)
double-pow q k = omega (arith, ap (λ (t : ℕ). q * t) (pow-suc 2 k))

-- Both operands cut at bit `k`: the operation works on the two parts on their own.
pub bit_and_split :
    (k p r q s : ℕ)
    → r < 2 ^ k
    → s < 2 ^ k
    → bit_and (p * 2 ^ k + r) (q * 2 ^ k + s) ≡ bit_and p q * 2 ^ k + bit_and r s
bit_and_split zero p r q s hr hs = ground (arith, bit_and-zero 0)
bit_and_split (suc k) p r q s hr hs = ground (
  arith,
  pow-suc 2 k,
  double-pow p k,
  double-pow q k,
  double-pow (bit_and p q) k,
  bit_and_halves (p * 2 ^ suc k + r) (q * 2 ^ suc k + s),
  bit_and_halves r s,
  bit_and_split k p (r / 2) q (s / 2),
)

pub bit_or_split :
    (k p r q s : ℕ)
    → r < 2 ^ k
    → s < 2 ^ k
    → bit_or (p * 2 ^ k + r) (q * 2 ^ k + s) ≡ bit_or p q * 2 ^ k + bit_or r s
bit_or_split zero p r q s hr hs = ground (arith, bit_or-zero 0)
bit_or_split (suc k) p r q s hr hs = ground (
  arith,
  pow-suc 2 k,
  double-pow p k,
  double-pow q k,
  double-pow (bit_or p q) k,
  bit_or_halves (p * 2 ^ suc k + r) (q * 2 ^ suc k + s),
  bit_or_halves r s,
  bit_or_split k p (r / 2) q (s / 2),
)

-- A number below `2 ^ k` passes a mask of `k` ones whole.
bit_and_low : (k a : ℕ) → a < 2 ^ k → bit_and a (2 ^ k - 1) ≡ a
bit_and_low zero a h = omega (arith, bit_and-zero a)
bit_and_low (suc k) a h =
    ground
      (arith, pow-suc 2 k, one-le-pow k 2, bit_and_halves a (2 ^ suc k - 1), bit_and_low k (a / 2))

-- A mask of `k` ones is the remainder by `2 ^ k`.
pub bit_and_mask : (k a : ℕ) → bit_and a (2 ^ k - 1) ≡ a % 2 ^ k
bit_and_mask k a = ground (
  arith,
  div-add-mod' a (2 ^ k),
  one-le-pow k 2,
  mod-lt a {m = 2 ^ k},
  bit_and_split k (a / 2 ^ k) (a % 2 ^ k) 0 (2 ^ k - 1),
  bit_and-zero (a / 2 ^ k),
  bit_and_low k (a % 2 ^ k),
)

-- A mask above bit `k` sees the number shifted down.
pub bit_and_high : (k m a : ℕ) → bit_and a (m * 2 ^ k) ≡ bit_and (a / 2 ^ k) m * 2 ^ k
bit_and_high k m a = ground (
  arith,
  div-add-mod' a (2 ^ k),
  one-le-pow k 2,
  mod-lt a {m = 2 ^ k},
  bit_and_split k (a / 2 ^ k) (a % 2 ^ k) m 0,
  bit_and-zero (a % 2 ^ k),
)

-- `(q << k) | r` is a sum where `r` has `k` bits.
pub bit_or_fields : (k q r : ℕ) → r < 2 ^ k → bit_or (q * 2 ^ k) r ≡ q * 2 ^ k + r
bit_or_fields k q r h =
    ground (arith, one-le-pow k 2, bit_or_split k q 0 0 r, bit_or-zero q, zero-bit_or r)
