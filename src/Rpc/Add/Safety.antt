-- ===== src/Rpc/Add/Safety.antt =====
-- The writers of pkg/src/af_rpc.c on any buffer, whatever its bytes are: no access outside the
-- memory, no change on an error.
use af_ipc.Common.{
  ℕ, ◌+◌, ◌≤◌, ◌≡◌, refl, ◌∙◌, some, none, arith, inl, inr, Bool-cases, ltb, ltb→ge, ◌==◌, ℤ, pos,
  negsuc, done, Returns, length,
}
use af_ipc.Rpc.Memory.{Bytes, Buffer, store-Returns, setlen-Returns, getlen-Returns}
use af_ipc.Rpc.Types.{ok, err}
use af_ipc.Rpc.Add.{Written, append_value, add_value}

-- `n` bytes may be accessed behind `buf`; nothing is asked of NULL or of a negative size.
abbrev pub Fits : Buffer → ℤ → Type 0
Fits none n = Unit {0}
Fits (some b) (pos n) = n ≤ length b
Fits (some b) (negsuc k) = Unit {0}

-- A position inside the buffer and memory of the same size, or an error and unchanged memory.
abbrev pub IsSafeWrite : Buffer → ℤ → Written → Type 0
IsSafeWrite buf n (err e, buf') = buf' ≡ buf
IsSafeWrite (some b) (pos n) (ok p, some b') = (2 ≤ p) × (p ≤ n) × (length b' ≡ length b)
IsSafeWrite buf n (ok p, buf') = ⊥

append_value-safe :
    (type size n p : ℕ) (b v : Bytes)
    → length v ≡ size
    → 2 ≤ n
    → n ≤ length b
    → Returns (IsSafeWrite (some b) (pos n)) (append_value type size (done v) b n p)
unfolding append_value
append_value-safe type size n p b v hv two fits = elim (Bool-cases (ltb n (p + 2 + size))) [
  | inl over ↦ rw over refl
  | inr room ↦
      let h = ltb→ge n (p + 2 + size) room in
      let (b1, e1, l1) = setlen-Returns b p type (omega arith) in
      let (b2, e2, l2) = store-Returns b1 (p + 2) v (omega arith) in
      let (b3, e3, l3) = setlen-Returns b2 0 (p + 2 + size) (omega arith) in
      rw (room, e1, e2, e3) (omega arith, h, l3 ∙ l2 ∙ l1)
]

pub add_value-safe :
    (type size : ℕ) (buf : Buffer) (n : ℤ) (v : Bytes)
    → length v ≡ size
    → Fits buf n
    → Returns (IsSafeWrite buf n) (add_value type size (done v) buf n)
unfolding add_value
add_value-safe type size none n v hv fits = refl
add_value-safe type size (some b) (negsuc k) v hv fits = refl
add_value-safe type size (some b) (pos n) v hv fits = elim (Bool-cases (n == 0)) [
  | inl zero ↦ rw zero refl
  | inr positive ↦ elim (Bool-cases (ltb n 2)) [
    | inl small ↦ rw (positive, small) refl
    | inr two ↦
        let (p, e) = getlen-Returns b 0 (omega (arith, ltb→ge n 2 two)) in
        rw (positive, two, e) (append_value-safe type size n p b v hv (ltb→ge n 2 two) fits)
  ]
]
