-- ===== src/Rpc/Params/Safety.antt =====
-- af_rpc_get_params_from_buffer of pkg/src/af_rpc.c on any buffer: the loop ends, and no access is
-- outside the memory.
use af_ipc.Common.{
  ℕ, zero, suc, ◌+◌, ◌-◌, ◌≤◌, ◌<◌, ◌≡◌, refl, ◌∙◌, Bool, Option, none, some, List, arith, inl, inr,
  Bool-cases, ltb, leb, ltb→ge, ltb→lt, leb→gt, ◌==◌, pos, Run, fault, done, ◌>>=◌, Returns, length,
  length-set, get_elem?-lt, set,
}
use mathlib.Core.Option
use af_ipc.Rpc.Memory.{Bytes, getlen-Returns}
use af_ipc.Rpc.Types.{Result, ok, err}
use af_ipc.Rpc.Params.{Param}
use af_ipc.Rpc.Params.Parse.{
  Parsed, Entry, read_params, read_all, get_params_from_buffer, check_end, after_round,
}
use af_ipc.Rpc.Params.RoundSafety.{HasMoved, read_param-safe}

-- The loop has ended: the fuel was enough, and there was no fault. The array has its size, and the
-- number of parameters is at most that of its entries.
abbrev IsParsed : ℕ → ℕ → Option (Run Parsed) → Type 0
IsParsed num_params size none = ⊥
IsParsed num_params size (some fault) = ⊥
IsParsed num_params size (some (done (ok k, params))) = (k ≤ num_params) × (length params ≡ size)
IsParsed num_params size (some (done (err e, params))) = length params ≡ size

check_end-safe :
    (n num_params : ℕ) (permissive : Bool) (param p size : ℕ) (params : List Param)
    → param ≤ num_params
    → length params ≡ size
    → IsParsed num_params size (some (done (check_end n num_params permissive param p, params)))
check_end-safe n num_params permissive param p size params h k = ground arith

module _ (address : ℕ) (buf : Bytes) (n len num_params : ℕ) (permissive : Bool)
    (fits : len ≤ length buf) where
  after_round-safe :
      (rest : ℕ → List Param → Option (Run Parsed)) (p param size : ℕ) (params : List Param)
      (r : Run Entry)
      → length params ≡ size
      → Returns (HasMoved p len) r
      → ((q : ℕ) (entries : List Param)
          → p < q
          → q ≤ len
          → length entries ≡ size
          → IsParsed num_params size (rest q entries))
      → IsParsed num_params size (after_round rest params param r)
  after_round-safe rest p param size params fault hs h k = h
  after_round-safe rest p param size params (done (err e, y)) hs h k =
      length-set params param y ∙ hs
  after_round-safe rest p param size params (done (ok q, y)) hs h k =
      k q (set params param y) h.0 h.1 (length-set params param y ∙ hs)

  read_params-safe :
      (fuel p param size : ℕ) (params : List Param)
      → len - p < fuel
      → param ≤ num_params
      → num_params ≤ size
      → length params ≡ size
      → IsParsed num_params size
          (read_params fuel address buf n len num_params permissive p param params)
  unfolding read_params
  read_params-safe zero p param size params hf hk hs hl = absurd (omega arith)
  read_params-safe (suc fuel) p param size params hf hk hs hl = elim (Bool-cases (ltb p len)) [
    | inr end ↦ rw end (check_end-safe n num_params permissive param p size params hk hl)
    | inl more ↦ elim (Bool-cases (leb num_params param)) [
      | inl full ↦ rw (more, full) (omega arith, hl)
      | inr room ↦
          let lt = leb→gt num_params param room in
          let (x, e) = get_elem?-lt params param (omega arith) in
          rw (more, room, e)
            (after_round-safe _ p param size params _ hl
              (read_param-safe address buf len permissive p x fits)
              λ q entries moved inside same.
                read_params-safe fuel q (param + 1) size entries (omega (arith, ltb→lt p len more))
                  (omega arith) hs same)
    ]
  ]

-- A result of af_rpc_get_params_from_buffer: at most `num_params` parameters, or an error, and an
-- array of the old size.
abbrev pub IsBounded : ℕ → ℕ → Result ℕ × Option (List Param) → Type 0
IsBounded num_params size (ok k, some params) = (k ≤ num_params) × (length params ≡ size)
IsBounded num_params size (err e, some params) = length params ≡ size
IsBounded num_params size (r, none) = ⊥

parsed :
    (num_params size : ℕ) (o : Option (Run Parsed))
    → IsParsed num_params size o
    → (r : Result ℕ × Option (List Param)) × (Option.map (λ m. m >>= λ v. done (v.0, some v.1)) o
        ≡ some (done r))
      × IsBounded num_params size r
parsed num_params size (some (done (ok k, params))) h = ((ok k, some params), refl, h)
parsed num_params size (some (done (err e, params))) h = ((err e, some params), refl, h)
parsed num_params size (some fault) h = absurd h
parsed num_params size none h = absurd h

read_all-safe :
    (address n len num_params : ℕ) (buf : Bytes) (permissive : Bool) (params : List Param)
    → n ≤ length buf
    → num_params ≤ length params
    → IsParsed num_params (length params) (read_all address buf n len num_params permissive params)
unfolding read_all
read_all-safe address n len num_params buf permissive params fits hs =
    elim (Bool-cases (ltb n len)) [
      | inl past ↦ rw past refl
      | inr inside ↦ rw inside (
          read_params-safe address buf n len num_params permissive
            (omega (arith, ltb→ge n len inside)) (len + 1) 2 0 (length params) params (omega arith)
            (omega arith) hs refl)
    ]

-- On a buffer with any bytes af_rpc_get_params_from_buffer ends, makes no access outside the buffer
-- or the caller's array, and returns at most the number of parameters that there is room for, or an
-- error.
pub get_params-total :
    (address n num_params : ℕ) (buf : Bytes) (permissive : Bool) (params : List Param)
    → n ≤ length buf
    → num_params ≤ length params
    → (r : Result ℕ × Option (List Param)) × (get_params_from_buffer
          (some params)
          (pos num_params)
          address
          (some buf)
          (pos n)
          permissive
        ≡ some (done r))
      × IsBounded num_params (length params) r
unfolding get_params_from_buffer
get_params-total address n num_params buf permissive params fits hs = elim (Bool-cases (n == 0)) [
  | inl zero' ↦ rw zero' (_, refl, refl)
  | inr positive ↦ elim (Bool-cases (ltb n 2)) [
    | inl small ↦ rw (positive, small) (_, refl, refl)
    | inr two ↦
        let (len, e) = getlen-Returns buf 0 (omega (arith, ltb→ge n 2 two)) in
        rw (positive, two, e)
          (parsed num_params (length params) _
            (read_all-safe address n len num_params buf permissive params fits hs))
  ]
]
