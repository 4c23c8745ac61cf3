-- ===== src/Tools/Deliver.antt =====
-- From the command line of pkg/src/ipc_send.c to the parameters that a server reads with pkg/src/af_rpc.c.
use af_ipc.Common.{ℕ, ◌+◌, ◌≤◌, ◌≡◌, ◌≢◌, refl, arith, true, some, List, [], ◌∷◌, pos, done, length}
use af_ipc.Rpc.Memory.{Bytes}
use af_ipc.Rpc.Types.{ok}
use af_ipc.Rpc.Items.{
  Item, uint8, uint16, uint32, int8, int16, int32, blob, IsItem, AllItems, encode_all,
}
use af_ipc.Rpc.Params.{Param}
use af_ipc.Rpc.Params.Create.{create_buffer_with_params}
use af_ipc.Rpc.Params.Parse.{get_params_from_buffer}
use af_ipc.Rpc.Params.ReadBack.{AreRead, AreExpected}
use af_ipc.Rpc.Params.RoundTrip.{get_params-create}
use af_ipc.Tools.Format.{send_ok}
use af_ipc.Tools.Parser.{Statics, new_statics, param_parser}
use af_ipc.Tools.Arguments.{AllArguments, IsArgument, arguments}
use af_ipc.Tools.Arguments.Loop.{param_parser-arguments}

argument-IsItem : (x : Item) → IsArgument x → IsItem x
argument-IsItem (uint8 v) h = h
argument-IsItem (uint16 v) h = h
argument-IsItem (uint32 v) h = h
argument-IsItem (int8 v) h = h
argument-IsItem (int16 v) h = h
argument-IsItem (int32 v) h = h
argument-IsItem (blob v) h = h.1

pub arguments-AllItems : (xs : List Item) → AllArguments xs → AllItems xs
arguments-AllItems [] h = tt
arguments-AllItems (x ∷ xs) h = (argument-IsItem x h.0, arguments-AllItems xs h.1)

-- The permissive mode expects nothing of the entries.
pub permissive-AreExpected :
    (xs : List Item) (ys : List Param) → length xs ≤ length ys → AreExpected true xs ys
permissive-AreExpected [] ys h = tt
permissive-AreExpected (x ∷ xs) [] h = absurd (omega arith)
permissive-AreExpected (x ∷ xs) (y ∷ ys) h = (tt, permissive-AreExpected xs ys (omega arith))

-- A command line that writes at most sixteen parameters, integers in decimal and in the range of their
-- types and blobs in hexadecimal (no strings), of at most 256 bytes in all when encoded, is parsed into an array from which af_rpc_create_buffer_with_params makes a request in txBuffer, and
-- a server that has the request and gives af_rpc_get_params_from_buffer an array of enough entries
-- in the permissive mode reads these parameters: the same number, types, values and blobs.
pub get_params-arguments :
    (malloc : ℕ → ℕ) (xs : List Item) (program server tx : Bytes) (k address num_params : ℕ)
    (entries : List Param)
    → ((n : ℕ) → malloc n ≢ 0)
    → AllArguments xs
    → length xs ≤ 16
    → length tx ≡ 256
    → k ≡ 2 + length (encode_all xs)
    → k ≤ 256
    → length xs ≤ num_params
    → num_params ≤ length entries
    → (s : Statics) × (tx' : Bytes) × (entries' : List Param) × (param_parser malloc
          (program ∷ (server ∷ arguments xs))
          new_statics
        ≡ done (send_ok, s))
      × (s.name ≡ some server)
      × (create_buffer_with_params (some tx) (pos 256) (some s.in_params) (pos s.num_in_params)
          ≡ done (ok k, some tx'))
      × (get_params_from_buffer (some entries) (pos num_params) address (some tx') (pos k) true
          ≡ some (done (ok (length xs), some entries')))
      × AreRead xs entries'
get_params-arguments malloc xs program server tx k address num_params entries found h few size hk
      room enough inside =
    let (ys, m, parsed, are, l) = param_parser-arguments malloc xs program server found h few in
    let (tx', entries', created, read, same, l') =
      get_params-create xs ys entries tx 256 k address num_params true (arguments-AllItems xs h) are
        hk room (omega arith) (omega arith) (permissive-AreExpected xs entries (omega arith))
        enough in
    (_, tx', entries', parsed, refl, created, read, same)
