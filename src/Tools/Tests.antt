-- ===== src/Tools/Tests.antt =====
-- The theorems on pkg/src/ipc_send.c and pkg/src/ipc_wait.c, for concrete command lines and replies,
-- and tests of the texts.
use af_ipc.Common.{
  ℕ, ◌+◌, ◌*◌, ◌^◌, ◌≡◌, ◌≢◌, refl, arith, true, false, none, some, List, [], ◌∷◌, done, pos,
  negsuc,
}
use af_ipc.Rpc.Memory.{Bytes}
use af_ipc.Rpc.Types.{ok}
use af_ipc.Rpc.Items.{Item, uint8, int16, blob}
use af_ipc.Rpc.Params.{Param, set_param_as_uint8, set_param_as_int16}
use af_ipc.Rpc.Params.Create.{create_buffer_with_params}
use af_ipc.Rpc.Params.Parse.{get_params_from_buffer}
use af_ipc.Rpc.Params.ReadBack.{AreRead}
use af_ipc.Ipc.Requests.{Request}
use af_ipc.Ipc.Send.{Environment, send_error, new_request}
use af_ipc.Ipc.Receive.Exchange.{whole}
use af_ipc.Ipc.Receive.Stream.{wire}
use af_ipc.Client.{Connection, Effect, live}
use af_ipc.Client.Closing.{close_calls}
use af_ipc.Client.Life.{IsIdle}
use af_ipc.Client.Open.{Opening, open_server}
use af_ipc.Client.Orderly.{calm}
use af_ipc.Client.Receive.{packet, end_of_stream}
use af_ipc.Client.Receive.Quiet.{passive_acts}
use af_ipc.Tools.Arguments.{arguments}
use af_ipc.Tools.Blocks.{dealloc_params, allocated}
use af_ipc.Tools.Blocks.All.{dealloc-param_parser}
use af_ipc.Tools.Deliver.{get_params-arguments}
use af_ipc.Tools.Format.{Status, send_ok}
use af_ipc.Tools.Parser.{Statics, new_statics, param_parser, zero_params}
use af_ipc.Tools.Print.{zeros, print_params}
use af_ipc.Tools.Print.Blobs.{length-zeros}
use af_ipc.Tools.Print.Numbers.{print_params-numbers}
use af_ipc.Tools.Process.{
  Process, new_process, Event, readable, request_timeout, tool_timeout, close_server,
}
use af_ipc.Tools.Process.Sound.{IsSound, closing_calls}
use af_ipc.Tools.Send.{Sender, Outcome, send_due, other, main}
use af_ipc.Tools.Send
use af_ipc.Tools.Send.Answered.{exchange, IsPrinted, main-IsPrinted}
use af_ipc.Tools.Send.Asked.{encoded}
use af_ipc.Tools.Send.Orderly.{IsSender, event_base_dispatch-IsSender}
use af_ipc.Tools.Text.{atoi, unsigned_text}
use af_ipc.Tools.Wait
use af_ipc.Tools.Wait.Orderly.{event_base_dispatch-IsSound}

-- " -12x"
atoi_number : atoi (32 ∷ 45 ∷ 49 ∷ 50 ∷ 120 ∷ []) ≡ negsuc 11
atoi_number = refl

decimal_text : unsigned_text 1205 ≡ 49 ∷ 50 ∷ 48 ∷ 53 ∷ []
unfolding unsigned_text
decimal_text = refl

-- malloc, the program and the server.
abbrev heap : ℕ → ℕ
heap k = 4096

abbrev program : Bytes
program = 112 ∷ []

abbrev server : Bytes
server = 115 ∷ []

found : (k : ℕ) → heap k ≢ 0
found k = omega arith

-- -u8 200 -i16 -5 -h 0aff
abbrev items : List Item
items = uint8 200 ∷ int16 (negsuc 4) ∷ blob (10 ∷ 255 ∷ []) ∷ []

dealloc-param_parser_example :
    (status : Status) × (s : Statics) × (param_parser heap
        (program ∷ server ∷ (45 ∷ 115 ∷ []) ∷ program ∷ (45 ∷ 117 ∷ []) ∷ program ∷ [])
        new_statics
      ≡ done (status, s))
    × ((dealloc_params s.in_params).0 ≡ allocated heap s.mallocs)
    × ((dealloc_params (dealloc_params s.in_params).1).0 ≡ [])
dealloc-param_parser_example =
    dealloc-param_parser heap
      (program ∷ server ∷ (45 ∷ 115 ∷ []) ∷ program ∷ (45 ∷ 117 ∷ []) ∷ program ∷ [])

get_params-arguments_example :
    (s : Statics) × (tx' : Bytes) × (entries' : List Param) × (param_parser heap
        (program ∷ (server ∷ arguments items))
        new_statics
      ≡ done (send_ok, s))
    × (s.name ≡ some server)
    × (create_buffer_with_params
          (some (zeros 256))
          (pos 256)
          (some s.in_params)
          (pos s.num_in_params)
        ≡ done (ok 13, some tx'))
    × (get_params_from_buffer (some (zero_params 4)) (pos 4) 9000 (some tx') (pos 13) true
        ≡ some (done (ok 3, some entries')))
    × AreRead items entries'
get_params-arguments_example =
    get_params-arguments heap items program server (zeros 256) 13 9000 4 (zero_params 4) found
      (
        omega arith,
        (omega arith, ((omega arith, omega arith, (omega arith, (omega arith, tt))), tt)),
      )
      (omega arith) (length-zeros 256) refl (omega arith) (omega arith) (omega arith)

-- A reply of the numbers 7 and -5 is printed as -5.
print_params-numbers_example :
    print_params
      (ok 2, some (set_param_as_uint8 7 ∷ set_param_as_int16 (negsuc 4) ∷ zero_params 14))
    ≡ done (some (45 ∷ 53 ∷ []))
unfolding unsigned_text
print_params-numbers_example =
    print_params-numbers (uint8 7) (int16 (negsuc 4) ∷ [])
      (set_param_as_uint8 7 ∷ set_param_as_int16 (negsuc 4) ∷ zero_params 14) (omega arith)
      (omega arith, tt) ((refl, refl, refl), ((refl, refl, refl), tt)) (omega arith)

abbrev opening : Opening
opening = record {
  base = true;
  memory = true;
  socket = pos 5;
  connect = λ path. true;
  pool = true;
  mutex = 0;
  event = true;
}

abbrev connection : Connection
connection = record {
  fd = pos 5;
  in_receive = false;
  marked = false;
  receive_callback = false;
  close_callback = true;
  context = 0;
  event = true;
  req_control = record { last_seq_id = 0; mutex_created = true; pending = []; pool = true };
}

connection-IsIdle : IsIdle 0 connection
connection-IsIdle = record {
  opened = record { has_callback = refl; same_context = refl; valid = refl };
  not_in_receive = refl;
  not_marked = refl;
}

abbrev slot : Request
slot = new_request 0 0 none 0

connected : open_server opening (47 ∷ []) server false 0 true ≡ done (some connection, pos 5 ∷ [])
unfolding open_server
connected = refl

-- The reply is the blobs 0a ff and 01.
main-IsPrinted_example :
    (x : Outcome) × (main heap 9000 opening
        (47 ∷ [])
        (calm slot)
        (exchange (6 * 2 ^ 16 + 1) (encoded (blob (10 ∷ 255 ∷ []) ∷ blob (1 ∷ []) ∷ [])))
        (program ∷ (server ∷ arguments items))
      ≡ done x)
    × IsPrinted (48 ∷ 97 ∷ 102 ∷ 102 ∷ 32 ∷ 48 ∷ 49 ∷ []) x
main-IsPrinted_example =
    main-IsPrinted heap 9000 opening (47 ∷ []) program server slot 6 items (10 ∷ 255 ∷ [])
      ((1 ∷ []) ∷ []) connection (pos 5 ∷ []) found
      (
        omega arith,
        (omega arith, ((omega arith, omega arith, (omega arith, (omega arith, tt))), tt)),
      )
      (omega arith) (omega arith) (omega arith) refl (omega arith) connected (omega arith)
      (omega arith, (omega arith, tt)) (omega arith) (omega arith) (omega arith)

-- A packet of one message, then the peer closes; the timers of the request and of the tool are late.
abbrev events : List Event
events =
    readable (packet (wire (whole 1 (1 ∷ []))) passive_acts ∷ [])
    ∷ readable (end_of_stream ∷ [])
    ∷ request_timeout 1
    ∷ tool_timeout
    ∷ []

event_base_dispatch-IsSound_example :
    (p : Process) × (es : List Effect) × (af_ipc.Tools.Wait.event_base_dispatch
        (calm slot)
        events
        (new_process (some (live connection)))
      ≡ done p)
    × IsSound p
    × (close_server p ≡ done es)
    × (close_calls es ≡ closing_calls p.server)
event_base_dispatch-IsSound_example =
    event_base_dispatch-IsSound (calm slot) events connection
      ((omega arith, tt), (tt, (tt, (tt, tt)))) connection-IsIdle

-- The request cannot be sent.
abbrev broken : Environment
broken = record { slot = some slot; timer = none; sendmsg = λ m. send_error 32 }

event_base_dispatch-IsSender_example :
    (s : Statics) × (x : Sender) × (es : List Effect) × (param_parser heap
        (program ∷ (server ∷ arguments items))
        new_statics
      ≡ done (send_ok, s))
    × (af_ipc.Tools.Send.event_base_dispatch broken s
          (send_due ∷ other tool_timeout ∷ [])
          (record { process = new_process (some (live connection)); tx_buffer = zeros 256 })
        ≡ done x)
    × IsSender x
    × (close_server x.process ≡ done es)
    × (close_calls es ≡ closing_calls x.process.server)
event_base_dispatch-IsSender_example =
    event_base_dispatch-IsSender heap items program server broken
      (send_due ∷ other tool_timeout ∷ []) connection found
      (
        omega arith,
        (omega arith, ((omega arith, omega arith, (omega arith, (omega arith, tt))), tt)),
      )
      (omega arith) (omega arith) (tt, (tt, tt)) connection-IsIdle
