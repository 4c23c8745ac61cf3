-- ===== src/Tools/Process.antt =====
-- What pkg/src/ipc_send.c and pkg/src/ipc_wait.c do while their event loops run: the callbacks, on the
-- static variables that both files have, and the connection of the client library.
pub mod Calls
pub mod Sound
use af_ipc.Common.{
  ℕ, zero, suc, ◌+◌, ◌^◌, Bool, true, false, Option, none, some, List, [], ◌∷◌, ◌++◌, ◌==◌,
  if◌then◌else◌, ℤ, pos, negsuc, Run, fault, done, ◌>>=◌, length,
}
use af_ipc.Rpc.Memory.{Bytes, store}
use af_ipc.Ipc.Requests.{Request, ReqControl, find_pending, on_timeout}
use af_ipc.Ipc.Send.{Environment}
use af_ipc.Ipc.Receive.{Delivery, incoming, reply}
use af_ipc.Client.{Connection, Handle, live, freed, Effect, call_close, call_receive, Left, close}
use af_ipc.Client.Receive.{Arrival, packet, on_recv}
use af_ipc.Client.Receive.Quiet.{passive_acts}
use af_ipc.Tools.Print.{zeros}

-- s_server (NULL is `none`), dataReceived, outBuffer and outBufferSize.
pub record Process : Type 0 where
  pub server : Option Handle
  pub data_received : Bool
  pub out_buffer : Bytes
  pub out_buffer_size : ℕ

abbrev pub new_process : Option Handle → Process
new_process server = record {
  server = server;
  data_received = false;
  out_buffer = zeros 256;
  out_buffer_size = 0;
}

-- The receive callbacks, given the data or NULL.
unfoldable pub handle_receive : Option Bytes → Process → Run Process
handle_receive none p = done p
handle_receive (some bytes) p = store p.out_buffer 0 bytes >>= λ b.
    done (record p { data_received = true; out_buffer = b; out_buffer_size = length bytes })

-- The close callbacks: the pointer is forgotten.
abbrev pub handle_close : Process → Process
handle_close p = record p { server = none }

abbrev pub payload : Delivery → Bytes
payload (incoming n bytes) = bytes
payload (reply callback context n bytes) = bytes

-- The calls that the client library makes.
unfoldable pub take_effect : Effect → Process → Run Process
unfolding handle_receive
take_effect (call_receive d) p = handle_receive (some (payload d)) p
take_effect (call_close status context) p = done (handle_close p)
take_effect e p = done p

unfoldable pub take_effects : List Effect → Process → Run Process
unfolding take_effect
take_effects [] p = done p
take_effects (e ∷ es) p = take_effect e p >>= take_effects es

unfoldable pub take_left : Process → Left → Run Process
unfolding take_effects
take_left p (h, es) = take_effects es (record p { server = some h })

-- The tools' callbacks do nothing with the connection.
abbrev pub passive : Arrival → Arrival
passive (packet buf acts) = packet buf passive_acts
passive a = a

abbrev pub all_passive : List Arrival → List Arrival
all_passive [] = []
all_passive (a ∷ as') = passive a ∷ all_passive as'

-- What the event loop dispatches: the socket's event with what recv returns, the timeout of the
-- pending request with an ID, or that of the tool's own timer, which only asks the loop to end.
pub data Event : Type 0 where
  readable : List Arrival → Event
  request_timeout : ℕ → Event
  tool_timeout : Event

abbrev pub timed_out : Option Request → Connection → Process → Run Process
timed_out none c p = done p
timed_out (some r) c p =
    handle_receive none (record p {
      server = some (live (record c { req_control = (on_timeout r c.req_control).1 }));
    })

-- The events of a connection are freed with it.
unfoldable pub on_event : Environment → Event → Process → Run Process
unfolding on_recv take_left handle_receive on_timeout
on_event env (readable arrivals) p = elim p.server [
  | none ↦ done p
  | some h ↦ on_recv env (all_passive arrivals) h >>= take_left p
]
on_event env (request_timeout id) p = elim p.server [
  | none ↦ done p
  | some freed ↦ fault
  | some (live c) ↦ timed_out (find_pending id c.req_control.pending) c p
]
on_event env tool_timeout p = done p

-- The connection is closed at the end, unless it was closed before.
unfoldable pub close_server : Process → Run (List Effect)
unfolding close
close_server p = elim p.server [ none ↦ done [] | some h ↦ close h >>= λ (h', es). done es ]
