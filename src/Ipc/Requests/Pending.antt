-- ===== src/Ipc/Requests/Pending.antt =====
-- Finding and removing pending requests: pkg/src/af_ipc_common.c.
use af_ipc.Common.{
  ℕ, ◌+◌, ◌^◌, ◌<◌, ◌≡◌, ◌≢◌, refl, ap, sym, ◌∙◌, none, some, List, [], ◌∷◌, arith, ◌==◌, inl, inr,
  Bool-cases, ==_self, ==→eq, length,
}
use af_ipc.Ipc.Requests.{Request, ReqControl, remove_pending, find_pending}

-- The request in front has the number.
pub remove_pending_head : (r : Request) (rs : List Request) → remove_pending r.seq_num (r ∷ rs) ≡ rs
unfolding remove_pending
remove_pending_head r rs = rw (==_self r.seq_num)

pub find_pending_head : (r : Request) (rs : List Request) → find_pending r.seq_num (r ∷ rs) ≡ some r
unfolding find_pending
find_pending_head r rs = rw (==_self r.seq_num)

-- What is found has the number.
pub find_pending-seq_num :
    (s : ℕ) (rs : List Request) (r : Request) → find_pending s rs ≡ some r → r.seq_num ≡ s
unfolding find_pending
find_pending-seq_num s [] r e = cc
find_pending-seq_num s (x ∷ rs) r e = elim (Bool-cases (x.seq_num == s)) [
  | inl hit ↦ ground (arith, ==→eq x.seq_num s hit)
  | inr miss ↦ find_pending-seq_num s rs r (ground arith)
]

-- Removing one number leaves the requests with other numbers to be found.
pub find-remove_ne :
    (s t : ℕ) (rs : List Request) → s ≢ t → find_pending t (remove_pending s rs) ≡ find_pending t rs
unfolding find_pending remove_pending
find-remove_ne s t [] h = refl
find-remove_ne s t (r ∷ rs) h = ground (arith, find-remove_ne s t rs)

pub remove_missing :
    (s : ℕ) (rs : List Request) → find_pending s rs ≡ none → remove_pending s rs ≡ rs
unfolding find_pending remove_pending
remove_missing s [] h = refl
remove_missing s (r ∷ rs) h = elim (Bool-cases (r.seq_num == s)) [
  | inl hit ↦ ground arith
  | inr miss ↦ rw miss (ap (◌∷◌ r) (remove_missing s rs (ground arith)))
]

pub length-remove :
    (s : ℕ) (rs : List Request) (r : Request)
    → find_pending s rs ≡ some r
    → length rs ≡ length (remove_pending s rs) + 1
unfolding find_pending remove_pending
length-remove s [] r h = cc
length-remove s (x ∷ rs) r h = elim (Bool-cases (x.seq_num == s)) [
  | inl hit ↦ rw hit (omega arith)
  | inr miss ↦ rw miss (omega (arith, length-remove s rs r (ground arith)))
]

-- No two pending requests have the same number.
abbrev pub AreDistinct : List Request → Type 0
AreDistinct [] = Unit {0}
AreDistinct (r ∷ rs) = (find_pending r.seq_num rs ≡ none) × AreDistinct rs

pub find-remove_self :
    (s : ℕ) (rs : List Request) → AreDistinct rs → find_pending s (remove_pending s rs) ≡ none
unfolding find_pending remove_pending
find-remove_self s [] h = refl
find-remove_self s (r ∷ rs) h = elim (Bool-cases (r.seq_num == s)) [
  | inl hit ↦ rw hit (ap (λ k. find_pending k rs) (sym (==→eq r.seq_num s hit)) ∙ h.0)
  | inr miss ↦ rw (miss, miss) (find-remove_self s rs h.1)
]

-- A number that is not pending is not pending after a removal.
pub find-remove_none :
    (s t : ℕ) (rs : List Request)
    → find_pending t rs ≡ none
    → find_pending t (remove_pending s rs) ≡ none
unfolding find_pending remove_pending
find-remove_none s t [] h = refl
find-remove_none s t (r ∷ rs) h = ground (arith, find-remove_none s t rs)

pub remove-AreDistinct :
    (s : ℕ) (rs : List Request) → AreDistinct rs → AreDistinct (remove_pending s rs)
unfolding remove_pending
remove-AreDistinct s [] h = tt
remove-AreDistinct s (r ∷ rs) h = elim (Bool-cases (r.seq_num == s)) [
  | inl hit ↦ rw hit h.1
  | inr miss ↦ rw miss (find-remove_none s r.seq_num rs h.0, remove-AreDistinct s rs h.1)
]

-- Every pending request has a sequence ID of its own kind, and a timeout.
abbrev pub ArePending : List Request → Type 0
ArePending [] = Unit {0}
ArePending (r ∷ rs) = (0 < r.seq_num) × (r.seq_num < 2 ^ 15) × (0 < r.timeout_val) × ArePending rs

pub remove-ArePending :
    (s : ℕ) (rs : List Request) → ArePending rs → ArePending (remove_pending s rs)
unfolding remove_pending
remove-ArePending s [] h = tt
remove-ArePending s (r ∷ rs) h = elim (Bool-cases (r.seq_num == s)) [
  | inl hit ↦ rw hit h.3
  | inr miss ↦ rw miss (h.0, h.1, h.2, remove-ArePending s rs h.3)
]

-- The invariant of the database.
pub record IsValid (rc : ReqControl) : Type 0 where
  pub last_in_range : rc.last_seq_id < 2 ^ 15
  pub all_pending : ArePending rc.pending
  pub distinct : AreDistinct rc.pending
