-- ===== src/Server/Ids.antt =====
-- get_next_cid of pkg/src/af_ipc_server.c ends with an ID that no client has.
use af_ipc.Common.{
  ℕ, zero, suc, ◌+◌, ◌%◌, ◌^◌, ◌≤◌, ◌<◌, ◌≡◌, ◌≢◌, refl, ap, sym, ◌∙◌, true, false, Option, none,
  some, List, [], ◌∷◌, arith, ◌==◌, length, inl, inr, Bool-cases,
}
use af_ipc.Server.{Client, Server, is_used, next_cid, next_unused, get_next_cid, remove_client}

next_cid_lem : (last : ℕ) → last < 2 ^ 16 → next_cid last ≡ last % 65535 + 1
unfolding next_cid
next_cid_lem last h = ground arith

-- The ID of the round `k`.
abbrev pub visited : ℕ → ℕ → ℕ
visited last k = (last + k) % 65535 + 1

pub is_used-remove :
    (c d : ℕ) (cs : List Client) → c ≢ d → is_used d (remove_client c cs) ≡ is_used d cs
unfolding is_used remove_client
is_used-remove c d [] h = refl
is_used-remove c d (x ∷ cs) h = ground (arith, is_used-remove c d cs)

length-remove :
    (c : ℕ) (cs : List Client) → is_used c cs ≡ true → length cs ≡ suc (length (remove_client c cs))
unfolding is_used remove_client
length-remove c [] h = cc
length-remove c (x ∷ cs) h = elim (Bool-cases (x.cid == c)) [
  | inl hit ↦ rw hit refl
  | inr miss ↦ rw miss (ap suc (length-remove c cs (ground arith)))
]

-- Of `n` different IDs one is not used if there are fewer clients than that.
some_unused :
    (n last : ℕ) (cs : List Client)
    → n ≤ 65535
    → length cs < n
    → (k : ℕ) × (k < n) × (is_used (visited last k) cs ≡ false)
some_unused zero last cs h few = absurd (omega arith)
some_unused (suc n) last cs h few = elim (Bool-cases (is_used (visited last 0) cs)) [
  | inr free ↦ (0, omega arith, free)
  | inl used ↦
      let first = visited last 0 in
      let l = length-remove first cs used in
      let (k, lt, free) =
        some_unused n (suc last) (remove_client first cs) (omega arith) (omega arith) in
      (
        suc k,
        omega arith,
        ap (λ i. is_used i cs) (omega arith)
            ∙ sym (is_used-remove first (visited (suc last) k) cs (omega arith))
            ∙ free,
      )
]

-- A result with the properties of an ID for a new client.
abbrev pub IsFresh : List Client → Option ℕ → Type 0
IsFresh cs none = ⊥
IsFresh cs (some c) = (0 < c) × (c < 2 ^ 16) × (is_used c cs ≡ false)

next_unused-IsFresh :
    (n last k : ℕ) (cs : List Client)
    → last < 2 ^ 16
    → k < n
    → is_used (visited last k) cs ≡ false
    → IsFresh cs (next_unused n last cs)
unfolding next_unused
next_unused-IsFresh zero last k cs h lt free = absurd (omega arith)
next_unused-IsFresh (suc n) last zero cs h lt free =
    let e = next_cid_lem last h in
    let unused : is_used (next_cid last) cs ≡ false =
      ap (λ i. is_used i cs) (omega (arith, e)) ∙ free in
    rw unused (omega (arith, e), omega (arith, e), unused)
next_unused-IsFresh (suc n) last (suc k) cs h lt free =
    let e = next_cid_lem last h in
    elim (Bool-cases (is_used (next_cid last) cs)) [
      | inr unused ↦ rw unused (omega (arith, e), omega (arith, e), unused)
      | inl used ↦ rw used (
          next_unused-IsFresh n (next_cid last) k cs (omega (arith, e)) (omega arith)
            (ap (λ i. is_used i cs) (omega (arith, e)) ∙ free))
    ]

fresh :
    (cs : List Client) (o : Option ℕ)
    → IsFresh cs o
    → (c : ℕ) × (o ≡ some c) × (0 < c) × (c < 2 ^ 16) × (is_used c cs ≡ false)
fresh cs none h = absurd h
fresh cs (some c) h = (c, refl, h.0, h.1, h.2)

-- As long as there are fewer than 65535 clients the loop of get_next_cid ends, with an ID of 16
-- bits that is not 0 and that no client has, wherever in 16 bits the search starts and however the
-- IDs lie.
pub get_next_cid-total :
    (s : Server)
    → s.last_cid < 2 ^ 16
    → length s.clients < 65535
    → (c : ℕ) × (get_next_cid s ≡ some c) × (0 < c) × (c < 2 ^ 16) × (is_used c s.clients ≡ false)
unfolding get_next_cid
get_next_cid-total s h few =
    let (k, lt, free) = some_unused 65535 s.last_cid s.clients (omega arith) few in
    fresh s.clients (next_unused 65535 s.last_cid s.clients)
      (next_unused-IsFresh 65535 s.last_cid k s.clients h lt free)

-- An ID that is found is fresh, however many clients there are.
abbrev pub IsFreshIfAny : List Client → Option ℕ → Type 0
IsFreshIfAny cs none = Unit {0}
IsFreshIfAny cs (some c) = (0 < c) × (c < 2 ^ 16) × (is_used c cs ≡ false)

pub next_unused-IsFreshIfAny :
    (n last : ℕ) (cs : List Client) → last < 2 ^ 16 → IsFreshIfAny cs (next_unused n last cs)
unfolding next_unused
next_unused-IsFreshIfAny zero last cs h = tt
next_unused-IsFreshIfAny (suc n) last cs h =
    let e = next_cid_lem last h in
    elim (Bool-cases (is_used (next_cid last) cs)) [
      | inr unused ↦ rw unused (omega (arith, e), omega (arith, e), unused)
      | inl used ↦ rw used (next_unused-IsFreshIfAny n (next_cid last) cs (omega (arith, e)))
    ]

pub get_next_cid-IsFreshIfAny :
    (s : Server) → s.last_cid < 2 ^ 16 → IsFreshIfAny s.clients (get_next_cid s)
unfolding get_next_cid
get_next_cid-IsFreshIfAny s h = next_unused-IsFreshIfAny 65535 s.last_cid s.clients h

-- The first ID of the search, if no client has it.
pub next_unused_free :
    (n last : ℕ) (cs : List Client)
    → is_used (next_cid last) cs ≡ false
    → next_unused (suc n) last cs ≡ some (next_cid last)
unfolding next_unused
next_unused_free n last cs h = rw h refl
