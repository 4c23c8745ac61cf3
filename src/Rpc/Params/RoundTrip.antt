-- ===== src/Rpc/Params/RoundTrip.antt =====
-- af_rpc_get_params_from_buffer reads what af_rpc_create_buffer_with_params of pkg/src/af_rpc.c
-- wrote.
use af_ipc.Common.{
  ℕ, zero, suc, ◌+◌, ◌^◌, ◌≤◌, ◌<◌, ◌≡◌, refl, ap, ap₂, sym, subst, ◌∙◌, some, List, [], ◌∷◌, ◌++◌,
  append_assoc, append-nil, arith, Bool, true, false, pos, done, length, length-append, ge→ltb,
  lt→ltb, gt→leb, ne→==, set, get_elem?,
}
use af_ipc.Rpc.Memory.{Bytes}
use af_ipc.Rpc.Types.{ok}
use af_ipc.Rpc.Add.Contents.{Contains, getlen-Contains}
use af_ipc.Rpc.Items.{Item, AllItems, encode, encode_all}
use af_ipc.Rpc.Params.{Param}
use af_ipc.Rpc.Params.Placed.{AreParams}
use af_ipc.Rpc.Params.Written.{create-Contains}
use af_ipc.Rpc.Params.Create.{create_buffer_with_params}
use af_ipc.Rpc.Params.Parse.{read_params, read_all, get_params_from_buffer, check_end}
use af_ipc.Rpc.Params.ReadBack.{AreRead, AreExpected, IsCount}
use af_ipc.Rpc.Params.Round.{read_param_found}

-- An array entry behind the entries that are done.
get_elem?-behind :
    (front back : List Param) (y : Param) → get_elem? (front ++ y ∷ back) (length front) ≡ some y
get_elem?-behind [] back y = refl
get_elem?-behind (z ∷ front) back y = get_elem?-behind front back y

pub set-behind :
    (front back : List Param) (y y' : Param)
    → set (front ++ y ∷ back) (length front) y' ≡ (front ++ y' ∷ []) ++ back
set-behind [] back y y' = refl
set-behind (z ∷ front) back y y' = ap (◌∷◌ z) (set-behind front back y y')

check_end_ok :
    (permissive : Bool) (n num_params k p : ℕ)
    → IsCount permissive k num_params
    → p ≡ n
    → check_end n num_params permissive k p ≡ ok k
check_end_ok true n num_params k p h e = ground arith
check_end_ok false n num_params k p h e = ground arith

count-lt :
    (permissive : Bool) (i k num_params : ℕ)
    → IsCount permissive (i + suc k) num_params
    → i < num_params
count-lt true i k num_params h = omega arith
count-lt false i k num_params h = omega arith

IsCount-nil :
    (permissive : Bool) (i num_params : ℕ)
    → IsCount permissive (i + 0) num_params
    → IsCount permissive i num_params
IsCount-nil true i num_params h = omega arith
IsCount-nil false i num_params h = omega arith

IsCount-next :
    (permissive : Bool) (i k num_params : ℕ)
    → IsCount permissive (i + suc k) num_params
    → IsCount permissive (i + 1 + k) num_params
IsCount-next true i k num_params h = omega arith
IsCount-next false i k num_params h = omega arith

module _ (address : ℕ) (b : Bytes) (n : ℕ) (permissive : Bool) (len num_params : ℕ)
    (inside : len ≤ length b) (whole : n ≡ len) where
  -- The loop from the position behind `pre` on, with `front` filled.
  read_params_found :
      (xs : List Item) (fuel i p : ℕ) (pre : Bytes) (front back : List Param)
      → AllItems xs
      → AreExpected permissive xs back
      → Contains b (pre ++ encode_all xs)
      → len ≡ 2 + length (pre ++ encode_all xs)
      → p ≡ 2 + length pre
      → i ≡ length front
      → IsCount permissive (i + length xs) num_params
      → length (encode_all xs) < fuel
      → (back' : List Param) × (read_params fuel address b n len num_params permissive p i
            (front ++ back)
          ≡ some (done (ok (i + length xs), front ++ back')))
        × AreRead xs back'
        × (length back' ≡ length back)
  unfolding read_params
  read_params_found xs zero i p pre front back h hx c hl hp hi hk hf = absurd (omega arith)
  read_params_found [] (suc fuel) i p pre front back h hx c hl hp hi hk hf =
      let e = ap length (append-nil pre) in
      (
        back,
        rw
            (
              ge→ltb p len (omega (arith, hl, e)),
              check_end_ok permissive n num_params i p (IsCount-nil permissive i num_params hk)
                  (omega (arith, hl, e)),
            )
            (ap (λ k. some (done (ok k, front ++ back))) (omega arith)),
        tt,
        refl,
      )
  read_params_found (x ∷ xs) (suc fuel) i p pre front [] h hx c hl hp hi hk hf = absurd hx
  read_params_found (x ∷ xs) (suc fuel) i p pre front (y ∷ back) h hx c hl hp hi hk hf =
      let E = encode_all xs in
      let total = length-append (encode x) E in
      let whole_length = length-append pre (encode x ++ E) in
      let (y', e, r) =
        read_param_found address b pre E permissive len p hp inside x y h.0 hx.0 c hl in
      let assoc = sym (append_assoc pre (encode x) E) in
      let (back', e', r', l) =
        read_params_found xs fuel (i + 1) (p + length (encode x)) (pre ++ encode x)
          (front ++ y' ∷ []) back h.1 hx.1 (subst (Contains b) assoc c)
          (omega (arith, hl, ap length assoc)) (omega (arith, length-append pre (encode x)))
          (omega (arith, length-append front (y' ∷ [])))
          (IsCount-next permissive i (length xs) num_params hk) (omega (arith, total)) in
      (
        y' ∷ back',
        rw
            (
              lt→ltb p len (omega (arith, hl, whole_length)),
              gt→leb num_params i (count-lt permissive i (length xs) num_params hk),
              ap (get_elem? (front ++ y ∷ back)) hi ∙ get_elem?-behind front back y,
              e,
              ap (λ k. set (front ++ y ∷ back) k y') hi ∙ set-behind front back y y',
              e',
            )
            (ap₂ (λ k z. some (done (ok k, z))) (omega arith) (append_assoc front (y' ∷ []) back')),
        (r, r'),
        ap suc l,
      )

pub get_params_found :
    (xs : List Item) (address k num_params : ℕ) (b : Bytes) (permissive : Bool)
    (entries : List Param)
    → AllItems xs
    → Contains b (encode_all xs)
    → k ≡ 2 + length (encode_all xs)
    → k ≤ length b
    → k < 2 ^ 16
    → AreExpected permissive xs entries
    → IsCount permissive (length xs) num_params
    → (entries' : List Param) × (get_params_from_buffer
          (some entries)
          (pos num_params)
          address
          (some b)
          (pos k)
          permissive
        ≡ some (done (ok (length xs), some entries')))
      × AreRead xs entries'
      × (length entries' ≡ length entries)
unfolding get_params_from_buffer read_all
get_params_found xs address k num_params b permissive entries h c hk inside small hx count =
    let (entries', e, r, l) =
      read_params_found address b k permissive k num_params inside refl xs (k + 1) 0 2 [] [] entries
        h hx c hk refl refl (subst (λ m. IsCount permissive m num_params) (omega arith) count)
        (omega arith) in
    (
      entries',
      rw
          (
            ne→== k 0 (omega arith),
            ge→ltb k 2 (omega arith),
            getlen-Contains b (encode_all xs) c (omega arith) ∙ ap done (sym hk),
            ge→ltb k k (omega arith),
            e,
          )
          (ap (λ m. some (done (ok m, some entries'))) (omega arith)),
      r,
      l,
    )

-- What af_rpc_create_buffer_with_params encodes af_rpc_get_params_from_buffer decodes: for
-- integers and blobs (no strings) set up by the macros, a buffer with room for them, and an array of
-- the number of entries
-- (of the expected types, in the strict mode), the parser is given the buffer with the length that
-- the writer returned, returns the number of parameters, and leaves entries of the same types from
-- which the macros read the same values, also when an integer is read in 32 bits; a blob's entry
-- points to its bytes.
pub get_params-create :
    (xs : List Item) (ys entries : List Param) (b : Bytes) (n k address num_params : ℕ)
    (permissive : Bool)
    → AllItems xs
    → AreParams xs ys
    → k ≡ 2 + length (encode_all xs)
    → k ≤ n
    → n ≤ length b
    → k < 2 ^ 16
    → AreExpected permissive xs entries
    → IsCount permissive (length xs) num_params
    → (b' : Bytes) × (entries' : List Param) × (create_buffer_with_params
          (some b)
          (pos n)
          (some ys)
          (pos (length xs))
        ≡ done (ok k, some b'))
      × (get_params_from_buffer (some entries) (pos num_params) address (some b') (pos k) permissive
          ≡ some (done (ok (length xs), some entries')))
      × AreRead xs entries'
      × (length entries' ≡ length entries)
get_params-create xs ys entries b n k address num_params permissive h i hk room inside small hx
      count =
    let (b', e, c, l) = create-Contains xs ys n k b h i hk room inside in
    let (entries', e', r, l') =
      get_params_found xs address k num_params b' permissive entries h c hk (omega arith) small hx
        count in
    (b', entries', e, e', r, l')
