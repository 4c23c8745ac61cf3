-- ===== src/Tools/Send/Orderly.antt =====
-- The event loop of pkg/src/ipc_send.c, and the end of the connection.
use af_ipc.Common.{
  ℕ, ◌+◌, ◌≤◌, ◌≡◌, ◌≢◌, refl, ◌∙◌, arith, List, [], ◌∷◌, Option, none, some, pos, done, Returns,
  >>=-Returns, Returns-done, length, lt→ltb,
}
use af_ipc.Rpc.Memory.{Bytes}
use af_ipc.Rpc.Items.{Item, AllItems, encode_all}
use af_ipc.Rpc.Params.Placed.{AreParams}
use af_ipc.Rpc.Params.Written.{create-Contains}
use af_ipc.Ipc.Requests.{Errno, ReqControl}
use af_ipc.Ipc.Send.{Environment, Message, send}
use af_ipc.Client
use af_ipc.Client.{
  Connection, Handle, live, freed, Effect, Left, status_error, after_send, message_sent,
  requests_or,
}
use af_ipc.Client.Closing.{close_calls}
use af_ipc.Client.Life.{IsIdle, closed-IsOrderly}
use af_ipc.Tools.Parser.{Statics, new_statics, param_parser}
use af_ipc.Tools.Format.{send_ok}
use af_ipc.Tools.Arguments.{AllArguments, arguments}
use af_ipc.Tools.Arguments.Loop.{param_parser-arguments}
use af_ipc.Tools.Deliver.{arguments-AllItems}
use af_ipc.Tools.Print.{zeros}
use af_ipc.Tools.Process.{Process, new_process, on_event, close_server}
use af_ipc.Tools.Process.Calls.{AllFit, IsLeft, closed-AllFit}
use af_ipc.Tools.Process.Sound.{
  HasBuffer, IsServer, IsSound, IsShortEvent, event-IsSound, closing_calls, close_server-once,
  new-IsSound, left-IsSound, length-zeros,
}
use af_ipc.Tools.Send.{
  Sender, SendEvent, send_due, other, send_tx, ipc_send_wrapper, on_send_event, event_base_dispatch,
}

message-AllFit : (m : Option Message) → AllFit (message_sent m)
message-AllFit none = tt
message-AllFit (some m) = tt

message-quiet : (m : Option Message) → close_calls (message_sent m) ≡ []
message-quiet none = refl
message-quiet (some m) = refl

IsIdle-with :
    (c : Connection) (rc : ReqControl) → IsIdle 0 c → IsIdle 0 (record c { req_control = rc })
IsIdle-with c rc h = record {
  opened = record {
    has_callback = h.opened.has_callback;
    same_context = h.opened.same_context;
    valid = h.opened.valid;
  };
  not_in_receive = h.not_in_receive;
  not_marked = h.not_marked;
}

-- A call that sends: the connection stays, or it was freed with a call of the close callback.
after_send-IsLeft :
    (c : Connection) (e : Option Errno) (control : Option ReqControl) (m : Option Message)
    → IsIdle 0 c
    → IsLeft 0 (after_send c e control m).1
unfolding after_send
after_send-IsLeft c none control m h =
    ((IsIdle-with c (requests_or c.req_control control) h, message-quiet m), message-AllFit m)
after_send-IsLeft c (some e) control m h =
    let rc = requests_or c.req_control control in
    (
      closed-IsOrderly 0 status_error (record c { req_control = rc }) (IsIdle-with c rc h).opened,
      closed-AllFit status_error (record c { req_control = rc }),
    )

module _ (env : Environment) where
  send_tx-IsSound :
      (tx : Bytes) (size : ℕ) (p : Process) (server : Option Handle)
      → p.server ≡ server
      → HasBuffer p
      → IsServer server
      → Returns IsSound (send_tx env tx size p)
  unfolding send_tx af_ipc.Client.send_request
  send_tx-IsSound tx size p none e h i = rw e (h, i)
  send_tx-IsSound tx size p (some freed) e h i = absurd i
  send_tx-IsSound tx size p (some (live c)) e h i =
      let r = send env (some c.req_control) 0 tx (pos size) (some 0) 0 (pos 3000) in
      rw (e, i.opened.valid)
        (left-IsSound (record p { server = some (live c) })
          (after_send c r.error r.control r.sent).1 (after_send-IsLeft c r.error r.control r.sent i)
          h)

-- With txBuffer of its size.
abbrev pub IsSender : Sender → Type 0
IsSender x = IsSound x.process × (length x.tx_buffer ≡ 256)

abbrev pub IsShortSend : SendEvent → Type 0
IsShortSend send_due = Unit {0}
IsShortSend (other e) = IsShortEvent e

abbrev pub AllShortSend : List SendEvent → Type 0
AllShortSend [] = Unit {0}
AllShortSend (e ∷ es) = IsShortSend e × AllShortSend es

module _ (env : Environment) (s : Statics) (xs : List Item) (items : AllItems xs)
    (params : AreParams xs s.in_params) (number : s.num_in_params ≡ length xs)
    (fits : 2 + length (encode_all xs) ≤ 256) where
  wrapper-IsSender : (x : Sender) → IsSender x → Returns IsSender (ipc_send_wrapper env s x)
  unfolding ipc_send_wrapper
  wrapper-IsSender x h =
      let (tx, e, c, l) =
        create-Contains xs s.in_params 256 (2 + length (encode_all xs)) x.tx_buffer items params
          refl fits (omega (arith, h.1)) in
      rw (number, e, lt→ltb 0 (2 + length (encode_all xs)) (omega arith))
        (>>=-Returns IsSound IsSender (send_tx env tx (2 + length (encode_all xs)) x.process) _
          (send_tx-IsSound env tx (2 + length (encode_all xs)) x.process x.process.server refl h.0.0
            h.0.1)
          λ p h'. (h', l ∙ h.1))

  event-IsSender :
      (e : SendEvent) (x : Sender)
      → IsShortSend e
      → IsSender x
      → Returns IsSender (on_send_event env s e x)
  event-IsSender send_due x short h = wrapper-IsSender x h
  event-IsSender (other e) x short h =
      >>=-Returns IsSound IsSender (on_event env e x.process) _
        (event-IsSound env e x.process short h.0) λ p h'. (h', h.1)

  events-IsSender :
      (events : List SendEvent) (x : Sender)
      → AllShortSend events
      → IsSender x
      → Returns IsSender (event_base_dispatch env s events x)
  unfolding event_base_dispatch
  events-IsSender [] x short h = h
  events-IsSender (e ∷ events) x short h =
      >>=-Returns IsSender IsSender (on_send_event env s e x) _ (event-IsSender e x short.0 h)
        λ x' h'. events-IsSender events x' short.1 h'

-- Started with a command line that writes at most sixteen parameters (integers in decimal and blobs in
-- hexadecimal) of at most 256 bytes in all when encoded, ipc_send parses them, and whatever events its loop dispatches then (the timer that sends
-- the request among them), in which order and with which answers of the system calls, as long as
-- each packet has at most 264 bytes, so that a message fits in outBuffer, which the code does not
-- check: it never writes outside txBuffer and outBuffer nor uses the
-- connection after it was freed, a request that cannot be sent included. At the end the pointer to
-- the server is NULL, if the library has freed the connection, and then nothing is closed, or the
-- connection is between two events, and af_ipcc_close frees it with one call of the close callback.
pub event_base_dispatch-IsSender :
    (malloc : ℕ → ℕ) (xs : List Item) (program server : Bytes) (env : Environment)
    (events : List SendEvent) (c : Connection)
    → ((k : ℕ) → malloc k ≢ 0)
    → AllArguments xs
    → length xs ≤ 16
    → 2 + length (encode_all xs) ≤ 256
    → AllShortSend events
    → IsIdle 0 c
    → (s : Statics) × (x : Sender) × (es : List Effect) × (param_parser malloc
          (program ∷ (server ∷ arguments xs))
          new_statics
        ≡ done (send_ok, s))
      × (event_base_dispatch env s events
            (record { process = new_process (some (live c)); tx_buffer = zeros 256 })
          ≡ done x)
      × IsSender x
      × (close_server x.process ≡ done es)
      × (close_calls es ≡ closing_calls x.process.server)
event_base_dispatch-IsSender malloc xs program server env events c found h few fits short idle =
    let (ys, m, parsed, are, l) = param_parser-arguments malloc xs program server found h few in
    let s : Statics = record {
      name = some server;
      in_params = ys;
      num_in_params = length xs;
      mallocs = m;
    } in
    let start : Sender = record { process = new_process (some (live c)); tx_buffer = zeros 256 } in
    let (x, e, sound) = Returns-done IsSender (event_base_dispatch env s events start) (
      events-IsSender env s xs (arguments-AllItems xs h) are refl fits events start short
        (new-IsSound c idle, length-zeros 256)) in
    let (es, e', calls) = close_server-once x.process sound.0 in
    (s, x, es, parsed, e, sound, e', calls)
