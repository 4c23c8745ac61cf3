-- ===== src/Tools/Blocks/All.antt =====
-- dealloc_params of pkg/src/ipc_send.c after param_parser.
use af_ipc.Common.{
  ℕ, ◌%◌, ◌≡◌, refl, arith, Option, none, some, List, [], ◌∷◌, inl, inr, Bool-cases, ==→eq, ◌==◌,
  Run, fault, done, Returns, >>=-Returns, length,
}
use af_ipc.Rpc.Memory.{Bytes}
use af_ipc.Rpc.Params.{Param}
use af_ipc.Tools.Format.{Status, send_ok, send_err}
use af_ipc.Tools.Parser.{
  Statics, new_statics, Parsing, take_argument, take_arguments, after_argument, from_name,
  end_of_arguments, param_parser,
}
use af_ipc.Tools.Blocks.{holds_block, dealloc_params, allocated}
use af_ipc.Tools.Parser.{with_name}
use af_ipc.Tools.Blocks.Freed.{Holds, IsHeld}
use af_ipc.Tools.Blocks.Parsed.{freed, take_argument-IsHeld}

module _ (malloc : ℕ → ℕ) where
  after_argument-IsHeld :
      (rest : ℕ → Statics → Run Parsing)
      → ((k : ℕ) (s : Statics) → Holds malloc k s → Returns (IsHeld malloc) (rest k s))
      → (r : Parsing) → IsHeld malloc r
      → Returns (IsHeld malloc) (after_argument rest r)
  after_argument-IsHeld rest more (send_ok, k, s) held = more k s held
  after_argument-IsHeld rest more (send_err, k, s) held = held

  -- The arguments come in pairs.
  take_arguments-IsHeld :
      (argv : List Bytes) (s : Statics) (k : ℕ)
      → length argv % 2 ≡ 0
      → Holds malloc k s
      → Returns (IsHeld malloc) (take_arguments malloc argv k s)
  unfolding take_arguments
  take_arguments-IsHeld [] s k even h = h
  take_arguments-IsHeld (option ∷ []) s k even h = absurd (omega arith)
  take_arguments-IsHeld (option ∷ (value ∷ argv)) s k even h =
      >>=-Returns (IsHeld malloc) (IsHeld malloc) (take_argument malloc s k option (some value)) _
        (take_argument-IsHeld malloc s k option value h)
        (after_argument-IsHeld (take_arguments malloc argv)
          λ k' s' held. take_arguments-IsHeld argv s' k' (omega arith) held)

  -- The results of the parser.
  abbrev IsFreed : Status × Statics → Type 0
  IsFreed (status, s) = (dealloc_params s.in_params).0 ≡ allocated malloc s.mallocs

  with_name-IsFreed :
      (k : ℕ) (s : Statics) (name : Option Bytes) → Holds malloc k s → IsFreed (with_name k s name)
  with_name-IsFreed k s none held = freed malloc k s held
  with_name-IsFreed k s (some name) held = freed malloc k s held

  end-IsFreed : (r : Parsing) → IsHeld malloc r → IsFreed (end_of_arguments r)
  end-IsFreed (send_err, k, s) held = freed malloc k s held
  end-IsFreed (send_ok, k, s) held = with_name-IsFreed k s s.name held

  from_name-IsHeld :
      (argv : List Bytes)
      → length argv % 2 ≡ 0
      → Returns (IsHeld malloc) (from_name malloc argv new_statics)
  unfolding dealloc_params
  from_name-IsHeld [] even = ([], refl, refl, refl)
  from_name-IsHeld (program ∷ []) even = absurd (omega arith)
  from_name-IsHeld (program ∷ (server ∷ argv)) even =
      take_arguments-IsHeld argv (record new_statics { name = some server }) 0 (omega arith)
        ([], refl, refl, refl)

  parser-IsFreed : (argv : List Bytes) → Returns IsFreed (param_parser malloc argv new_statics)
  unfolding param_parser dealloc_params
  parser-IsFreed argv = elim (Bool-cases (length argv % 2 == 0)) [
    | inr odd ↦ rw odd (freed malloc 0 new_statics ([], refl, refl, refl))
    | inl even ↦ rw even (
        >>=-Returns (IsHeld malloc) IsFreed (from_name malloc argv new_statics) _
          (from_name-IsHeld argv (==→eq (length argv % 2) 0 even)) end-IsFreed)
  ]

free_once : (params : List Param) → (dealloc_params (dealloc_params params).1).0 ≡ []
unfolding dealloc_params
free_once [] = refl
free_once (x ∷ params) = elim (Bool-cases (holds_block x)) [
  | inl h ↦ rw h (free_once params)
  | inr h ↦ rw h (rw h (free_once params))
]

returned :
    (malloc : ℕ → ℕ) (r : Run (Status × Statics))
    → Returns (IsFreed malloc) r
    → (status : Status) × (s : Statics) × (r ≡ done (status, s)) × IsFreed malloc (status, s)
returned malloc (done (status, s)) h = (status, s, refl, h)
returned malloc fault h = absurd h

-- Whatever the arguments are and whichever calls of malloc fail, param_parser returns, with success or
-- an error, without a read behind the arguments, and dealloc_params then frees the blocks that malloc
-- has given, each once and in their order; called again, it frees nothing.
pub dealloc-param_parser :
    (malloc : ℕ → ℕ) (argv : List Bytes)
    → (status : Status) × (s : Statics) × (param_parser malloc argv new_statics ≡ done (status, s))
      × ((dealloc_params s.in_params).0 ≡ allocated malloc s.mallocs)
      × ((dealloc_params (dealloc_params s.in_params).1).0 ≡ [])
dealloc-param_parser malloc argv =
    let (status, s, e, h) =
      returned malloc (param_parser malloc argv new_statics) (parser-IsFreed malloc argv) in
    (status, s, e, h, free_once s.in_params)
