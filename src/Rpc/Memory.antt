-- ===== src/Rpc/Memory.antt =====
-- The memory behind a `uint8_t *` and its reads and writes: setlen and getlen of
-- pkg/src/af_rpc.c, and the memcpy calls. Integers are big endian.
use af_ipc.Common.{
  ℕ, ◌+◌, ◌*◌, ◌/◌, ◌%◌, ◌^◌, ◌≤◌, ◌<◌, ◌≡◌, refl, ap, Option, List, [], ◌∷◌, ◌++◌, arith,
  append_assoc, gt→leb, length-take, length-drop,
}
use af_ipc.Common.{Run, fault, done, ◌>>=◌, leb, le→leb, if◌then◌else◌, length, take, drop}
use af_ipc.Common.{length-append, take-append, drop-append}

abbrev pub Bytes : Type 0
Bytes = List ℕ

-- A pointer: NULL, or the bytes from there on that may be accessed.
abbrev pub Buffer : Type 0
Buffer = Option Bytes

-- `n` bytes from index `p` on.
unfoldable pub load : Bytes → ℕ → ℕ → Run Bytes
load b p n = if leb (p + n) (length b) then done (take n (drop p b)) else fault

-- memcpy to index `p`.
unfoldable pub store : Bytes → ℕ → Bytes → Run Bytes
store b p v =
    if leb (p + length v) (length b) then done (take p b ++ (v ++ drop (p + length v) b)) else fault

abbrev pub be8 : ℕ → Bytes
be8 v = v % 256 ∷ []

-- htons and htonl, as the bytes in memory.
abbrev pub be16 : ℕ → Bytes
be16 v = v / 256 % 256 ∷ v % 256 ∷ []

abbrev pub be32 : ℕ → Bytes
be32 v = v / 2 ^ 24 % 256 ∷ v / 2 ^ 16 % 256 ∷ v / 256 % 256 ∷ v % 256 ∷ []

abbrev from_be_acc : ℕ → Bytes → ℕ
from_be_acc n [] = n
from_be_acc n (x ∷ xs) = from_be_acc (n * 256 + x) xs

-- ntohs and ntohl
abbrev pub from_be : Bytes → ℕ
from_be b = from_be_acc 0 b

unfoldable pub setlen : Bytes → ℕ → ℕ → Run Bytes
setlen b p len = store b p (be16 len)

unfoldable pub getlen : Bytes → ℕ → Run ℕ
getlen b p = load b p 2 >>= λ v. done (from_be v)

-- A read or write of a whole part of the memory.
pub load_part :
    (xs ys zs : Bytes) (p n : ℕ)
    → p ≡ length xs
    → n ≡ length ys
    → load (xs ++ (ys ++ zs)) p n ≡ done ys
unfolding load
load_part xs ys zs p n hp hn = rw (
  drop-append xs (ys ++ zs) p hp,
  take-append ys zs n hn,
  le→leb (p + n) (length (xs ++ (ys ++ zs)))
      (omega (arith, length-append xs (ys ++ zs), length-append ys zs)),
)

drop_two : (xs ys zs : Bytes) (n : ℕ) → n ≡ length xs + length ys → drop n (xs ++ (ys ++ zs)) ≡ zs
drop_two xs ys zs n e =
    rw (← append_assoc xs ys zs) (drop-append (xs ++ ys) zs n (omega (arith, length-append xs ys)))

pub store_part :
    (xs ys zs v : Bytes) (p : ℕ)
    → p ≡ length xs
    → length v ≡ length ys
    → store (xs ++ (ys ++ zs)) p v ≡ done (xs ++ (v ++ zs))
unfolding store
store_part xs ys zs v p hp hv = rw (
  take-append xs (ys ++ zs) p hp,
  drop_two xs ys zs (p + length v) (omega arith),
  le→leb (p + length v) (length (xs ++ (ys ++ zs)))
      (omega (arith, length-append xs (ys ++ zs), length-append ys zs)),
)

-- A write inside the memory succeeds and keeps its length; a read does too.
pub store-Returns :
    (b : Bytes) (p : ℕ) (v : Bytes)
    → p + length v ≤ length b
    → (b' : Bytes) × (store b p v ≡ done b') × (length b' ≡ length b)
unfolding store
store-Returns b p v h = (
  take p b ++ (v ++ drop (p + length v) b),
  rw (le→leb (p + length v) (length b) h),
  omega (
    arith,
    length-append (take p b) (v ++ drop (p + length v) b),
    length-append v (drop (p + length v) b),
    length-take p b,
    length-drop (p + length v) b,
  ),
)

pub load-Returns :
    (b : Bytes) (p n : ℕ) → p + n ≤ length b → (v : Bytes) × (load b p n ≡ done v) × (length v ≡ n)
unfolding load
load-Returns b p n h = (
  take n (drop p b),
  rw (le→leb (p + n) (length b) h),
  omega (arith, length-take n (drop p b), length-drop p b),
)

pub getlen-Returns : (b : Bytes) (p : ℕ) → p + 2 ≤ length b → (n : ℕ) × (getlen b p ≡ done n)
unfolding getlen
getlen-Returns b p h = let (v, e, l) = load-Returns b p 2 h in (from_be v, rw (e, ◌>>=◌))

-- An access outside the memory faults.
pub getlen-outside : (b : Bytes) (p : ℕ) → length b < p + 2 → getlen b p ≡ fault
unfolding getlen load
getlen-outside b p h = rw (gt→leb (p + 2) (length b) h)

-- What setlen wrote getlen reads back, up to the cast to uint16_t.
pub getlen_part :
    (xs zs : Bytes) (p n : ℕ)
    → p ≡ length xs
    → n < 2 ^ 16
    → getlen (xs ++ (be16 n ++ zs)) p ≡ done n
unfolding getlen
getlen_part xs zs p n hp hn = rw (load_part xs (be16 n) zs p 2 hp refl) (ap done (omega arith))

pub from_be-be8 : (n : ℕ) → n < 2 ^ 8 → from_be (be8 n) ≡ n
from_be-be8 n h = omega arith

pub from_be-be16 : (n : ℕ) → n < 2 ^ 16 → from_be (be16 n) ≡ n
from_be-be16 n h = omega arith

pub from_be-be32 : (n : ℕ) → n < 2 ^ 32 → from_be (be32 n) ≡ n
from_be-be32 n h = omega arith

pub setlen-Returns :
    (b : Bytes) (p n : ℕ)
    → p + 2 ≤ length b
    → (b' : Bytes) × (setlen b p n ≡ done b') × (length b' ≡ length b)
unfolding setlen
setlen-Returns b p n h = store-Returns b p (be16 n) h
