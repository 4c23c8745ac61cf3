-- ===== src/Tools/Arguments/Loop.antt =====
-- param_parser of pkg/src/ipc_send.c on the arguments that write a list of parameters.
use af_ipc.Common.{
  ℕ, suc, ◌+◌, ◌%◌, ◌≤◌, ◌≡◌, ◌≢◌, refl, ap, ap₂, ◌∙◌, arith, eq→==, some, List, [], ◌∷◌, ◌++◌,
  append_assoc, done, length, length-append, set,
}
use af_ipc.Rpc.Memory.{Bytes}
use af_ipc.Rpc.Items.{Item}
use af_ipc.Rpc.Params.{Param}
use af_ipc.Rpc.Params.Placed.{AreParams}
use af_ipc.Rpc.Params.RoundTrip.{set-behind}
use af_ipc.Tools.Format.{send_ok}
use af_ipc.Tools.Parser.{Statics, new_statics, take_arguments, param_parser, zero_params}
use af_ipc.Tools.Arguments.{AllArguments, arguments, argument-IsTaken}

module _ (malloc : ℕ → ℕ) (found : (k : ℕ) → malloc k ≢ 0) where
  -- The loop, with the entries before `k` filled.
  arguments_taken :
      (xs : List Item) (s : Statics) (k : ℕ) (front back : List Param)
      → AllArguments xs
      → s.in_params ≡ front ++ back
      → k ≡ length front
      → length xs ≤ length back
      → k + length back ≤ 16
      → (back' : List Param) × (m : ℕ) × (take_arguments malloc (arguments xs) k s
          ≡ done (send_ok, k + length xs, record s { in_params = front ++ back'; mallocs = m }))
        × AreParams xs back'
        × (length back' ≡ length back)
  unfolding take_arguments
  arguments_taken [] s k front back h e hk enough room = (
    back,
    s.mallocs,
    ap₂ (λ n params. done (send_ok, n, record s { in_params = params })) (omega arith) e,
    tt,
    refl,
  )
  arguments_taken (x ∷ xs) s k front [] h e hk enough room = absurd (omega arith)
  arguments_taken (x ∷ xs) s k front (z ∷ back) h e hk enough room =
      let (y, m, taken, is) = argument-IsTaken malloc found x s k h.0 (omega arith) in
      let s' = record s { in_params = set s.in_params k y; mallocs = m } in
      let stored : s'.in_params ≡ (front ++ y ∷ []) ++ back =
        ap₂ (λ l i. set l i y) e hk ∙ set-behind front back z y in
      let (back', m', rest, are, l) =
        arguments_taken xs s' (k + 1) (front ++ y ∷ []) back h.1 stored
          (omega (arith, length-append front (y ∷ []))) (omega arith) (omega arith) in
      (
        y ∷ back',
        m',
        rw (taken, rest)
            (ap₂ (λ n params. done (send_ok, n, record s { in_params = params; mallocs = m' }))
              (omega arith) (append_assoc front (y ∷ []) back')),
        (is, are),
        ap suc l,
      )

even_arguments : (xs : List Item) → length (arguments xs) % 2 ≡ 0
even_arguments [] = refl
even_arguments (x ∷ xs) = omega (arith, even_arguments xs)

length-zero_params : length (zero_params 16) ≡ 16
length-zero_params = refl

-- The command line that writes at most sixteen parameters, numbers in decimal and blobs that are not
-- empty in hexadecimal, is accepted if malloc gives memory: the server's name is the second
-- argument, and the array of parameters holds them as the macros set them, with a blob's bytes in its
-- block.
pub param_parser-arguments :
    (malloc : ℕ → ℕ) (xs : List Item) (program server : Bytes)
    → ((k : ℕ) → malloc k ≢ 0)
    → AllArguments xs
    → length xs ≤ 16
    → (ys : List Param) × (m : ℕ) × (param_parser malloc
          (program ∷ (server ∷ arguments xs))
          new_statics
        ≡ done (
          send_ok,
          record { name = some server; in_params = ys; num_in_params = length xs; mallocs = m },
        ))
      × AreParams xs ys
      × (length ys ≡ 16)
unfolding param_parser
param_parser-arguments malloc xs program server found h few =
    let (ys, m, e, are, l) =
      arguments_taken malloc found xs (record new_statics { name = some server }) 0 []
        (zero_params 16) h refl refl (omega (arith, length-zero_params))
        (omega (arith, length-zero_params)) in
    (
      ys,
      m,
      rw (eq→== (suc (suc (length (arguments xs))) % 2) 0 (omega (arith, even_arguments xs)), e)
          (ap
            (λ n. done (
              send_ok,
              record { name = some server; in_params = ys; num_in_params = n; mallocs = m },
            ))
            (omega arith)),
      are,
      omega (arith, l, length-zero_params),
    )
