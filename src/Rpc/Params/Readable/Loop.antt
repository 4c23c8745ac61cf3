-- ===== src/Rpc/Params/Readable/Loop.antt =====
-- The loop of af_rpc_get_params_from_buffer of pkg/src/af_rpc.c on arbitrary bytes, and the whole
-- call.
use af_ipc.Common.{
  ℕ, zero, suc, ◌+◌, ◌≤◌, ◌<◌, ◌≡◌, subst, Bool, not, ◌&&◌, arith, inl, inr, Bool-cases, if_both,
  leb, ltb, leb→gt, ltb→ge, ◌==◌, Option, none, some, List, pos, Run, fault, done, ◌>>=◌, length,
  length-set, get_elem?-lt, set,
}
use mathlib.Core.Option
use af_ipc.Rpc.Memory.{Bytes, getlen}
use af_ipc.Rpc.Params.Safety.{get_params-total}
use af_ipc.Rpc.Types.{Result, ok, err}
use af_ipc.Rpc.Params.{Param}
use af_ipc.Rpc.Params.Parse.{
  Parsed, Entry, after_round, read_params, read_all, get_params_from_buffer,
}
use af_ipc.Rpc.Params.Readable.{AllReadable, set-AllReadable, IsGood, param-IsGood}

-- What the loop leaves: the entries that it counts are readable.
abbrev IsKnown : Option (Run Parsed) → Type 0
IsKnown none = Unit {0}
IsKnown (some fault) = Unit {0}
IsKnown (some (done (ok k, ys))) = AllReadable k ys
IsKnown (some (done (err e, ys))) = Unit {0}

module _ (address : ℕ) (buf : Bytes) (n len num_params : ℕ) (permissive : Bool)
    (fits : len ≤ length buf) where
  round-IsKnown :
      (rest : ℕ → List Param → Option (Run Parsed)) (param : ℕ) (ys : List Param) (r : Run Entry)
      → IsGood r
      → AllReadable param ys
      → param < length ys
      → ((q : ℕ) (zs : List Param)
          → AllReadable (suc param) zs
          → length zs ≡ length ys
          → IsKnown (rest q zs))
      → IsKnown (after_round rest ys param r)
  round-IsKnown rest param ys fault g h lt k = tt
  round-IsKnown rest param ys (done (err e, y)) g h lt k = tt
  round-IsKnown rest param ys (done (ok q, y)) g h lt k =
      k q (set ys param y) (set-AllReadable param ys y h lt g) (length-set ys param y)

  read_params-IsKnown :
      (fuel p param : ℕ) (ys : List Param)
      → AllReadable param ys
      → num_params ≤ length ys
      → IsKnown (read_params fuel address buf n len num_params permissive p param ys)
  unfolding read_params
  read_params-IsKnown zero p param ys h hs = tt
  read_params-IsKnown (suc fuel) p param ys h hs =
      if_both IsKnown (ltb p len) _ _
        (elim (Bool-cases (leb num_params param)) [
          | inl full ↦ rw full tt
          | inr room ↦
              let lt = leb→gt num_params param room in
              let (x, e) = get_elem?-lt ys param (omega arith) in
              rw (room, e)
                (round-IsKnown _ param ys _ (param-IsGood address buf len permissive fits p x) h
                  (omega arith)
                  λ q zs known same.
                    read_params-IsKnown fuel q (param + 1) zs
                      (subst (λ i. AllReadable i zs) {x = suc param} (omega arith) known)
                      (omega arith))
        ])
        (if_both (λ r. IsKnown (some (done (r, ys)))) (not permissive && not (param == num_params))
          _ _ tt (if_both (λ r. IsKnown (some (done (r, ys)))) (not (p == n)) _ _ tt h))

-- A result of af_rpc_get_params_from_buffer whose counted entries are readable.
abbrev pub IsReadableResult : Result ℕ × Option (List Param) → Type 0
IsReadableResult (ok k, some ys) = AllReadable k ys
IsReadableResult (ok k, none) = ⊥
IsReadableResult (err e, ys) = Unit {0}

-- The same of a whole run.
abbrev IsReadableRun : Option (Run (Result ℕ × Option (List Param))) → Type 0
IsReadableRun none = Unit {0}
IsReadableRun (some fault) = Unit {0}
IsReadableRun (some (done r)) = IsReadableResult r

known :
    (o : Option (Run Parsed))
    → IsKnown o
    → IsReadableRun (Option.map (λ m. m >>= λ v. done (v.0, some v.1)) o)
known none h = tt
known (some fault) h = tt
known (some (done (ok k, ys))) h = h
known (some (done (err k, ys))) h = tt

after_length :
    (m : Run ℕ) (rest : ℕ → Option (Run Parsed))
    → ((len : ℕ) → IsKnown (rest len))
    → IsReadableRun (elim m [
      | fault ↦ some fault
      | done len ↦ Option.map (λ r. r >>= λ v. done (v.0, some v.1)) (rest len)
    ])
after_length fault rest h = tt
after_length (done len) rest h = known (rest len) (h len)

read_all-IsKnown :
    (address n len num_params : ℕ) (buf : Bytes) (permissive : Bool) (params : List Param)
    → n ≤ length buf
    → num_params ≤ length params
    → IsKnown (read_all address buf n len num_params permissive params)
unfolding read_all
read_all-IsKnown address n len num_params buf permissive params fits hs =
    elim (Bool-cases (ltb n len)) [
      | inl past ↦ rw past tt
      | inr inside ↦ rw inside (
          read_params-IsKnown address buf n len num_params permissive
            (omega (arith, ltb→ge n len inside)) (len + 1) 2 0 params tt hs)
    ]

run-IsReadableRun :
    (address n num_params : ℕ) (buf : Bytes) (permissive : Bool) (params : List Param)
    → n ≤ length buf
    → num_params ≤ length params
    → IsReadableRun (
        get_params_from_buffer (some params) (pos num_params) address (some buf) (pos n) permissive)
unfolding get_params_from_buffer
run-IsReadableRun address n num_params buf permissive params fits hs =
    if_both IsReadableRun (n == 0) _ _ tt (
      if_both IsReadableRun (ltb n 2) _ _ tt (
        after_length (getlen buf 0) (λ len. read_all address buf n len num_params permissive params)
          λ len. read_all-IsKnown address n len num_params buf permissive params fits hs))

-- On a buffer with any bytes af_rpc_get_params_from_buffer ends without a fault, and if it returns a
-- number of parameters then behind the pointer of each blob among them there are as many bytes as
-- its type tells, so a caller that reads the blob stays in the buffer.
pub get_params-IsReadable :
    (address n num_params : ℕ) (buf : Bytes) (permissive : Bool) (params : List Param)
    → n ≤ length buf
    → num_params ≤ length params
    → (r : Result ℕ × Option (List Param)) × (get_params_from_buffer
          (some params)
          (pos num_params)
          address
          (some buf)
          (pos n)
          permissive
        ≡ some (done r))
      × IsReadableResult r
get_params-IsReadable address n num_params buf permissive params fits hs =
    let (r, e, bounded) = get_params-total address n num_params buf permissive params fits hs in
    (
      r,
      e,
      subst IsReadableRun e (run-IsReadableRun address n num_params buf permissive params fits hs),
    )
