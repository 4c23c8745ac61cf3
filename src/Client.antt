-- ===== src/Client.antt =====
-- pkg/src/af_ipc_client.c: the connection of a client to its server, and its end. The structure is on
-- the heap: a use of it after free is a fault.
pub mod Open
pub mod Receive
pub mod Closing
pub mod Orderly
pub mod Busy
pub mod Life
mod Tests
use af_ipc.Common.{
  ℕ, zero, suc, Bool, true, false, Option, none, some, List, [], ◌∷◌, ◌++◌, if◌then◌else◌, ℤ, pos,
  negsuc, map, Run, fault, done, ◌>>=◌,
}
use af_ipc.Rpc.Memory.{Bytes}
use af_ipc.Ipc.Requests.{Errno, einval, ReqControl, shutdown_requests}
use af_ipc.Ipc.Send.{Message, Environment, Sent, send}
use af_ipc.Ipc.Receive.{Delivery}

-- af_ipcc_server_t. `in_receive` and `marked` are FLAGS_IN_RECEIVE and FLAGS_MARKED_FOR_SHUTDOWN.
pub record Connection : Type 0 where
  pub fd : ℤ
  pub in_receive : Bool
  pub marked : Bool
  pub receive_callback : Bool
  pub close_callback : Bool
  pub context : ℕ
  pub event : Bool
  pub req_control : ReqControl

-- The pointer that the application and the event loop hold.
pub data Handle : Type 0 where
  live : Connection → Handle
  freed : Handle

-- What is done to the outside; `sent` is a message of which sendmsg took bytes.
pub data Effect : Type 0 where
  sent : Message → Effect
  free_event : Effect
  free_timer : ℕ → Effect
  shut_both : ℤ → Effect
  close_socket : ℤ → Effect
  call_close : ℤ → ℕ → Effect
  call_receive : Delivery → Effect

-- What follows a call that frees or keeps the structure.
abbrev pub Left : Type 0
Left = Handle × List Effect

abbrev pub status_ok : ℤ
status_ok = pos 0

abbrev pub status_error : ℤ
status_error = negsuc 0

-- fd != -1
abbrev pub has_socket : ℤ → Bool
has_socket (pos n) = true
has_socket (negsuc zero) = false
has_socket (negsuc (suc n)) = true

-- fd < 0
abbrev pub is_invalid : ℤ → Bool
is_invalid (pos n) = false
is_invalid (negsuc n) = true

abbrev pub event_effects : Connection → List Effect
event_effects c = if c.event then free_event ∷ [] else []

abbrev pub callback_effects : ℤ → Connection → List Effect
callback_effects status c = if c.close_callback then call_close status c.context ∷ [] else []

unfoldable pub socket_effects : Connection → List Effect
unfolding shutdown_requests
socket_effects c =
    if has_socket c.fd
    then map free_timer (shutdown_requests c.req_control).1
      ++ (shut_both c.fd ∷ close_socket c.fd ∷ [])
    else []

unfoldable pub close_and_free_server : ℤ → Connection → Left
unfolding socket_effects
close_and_free_server status c =
    (freed, event_effects c ++ (socket_effects c ++ callback_effects status c))

-- In a receive callback the connection is only marked.
unfoldable pub close : Handle → Run Left
unfolding close_and_free_server
close freed = fault
close (live c) =
    if c.in_receive
    then done (live (record c { marked = true }), [])
    else done (close_and_free_server status_ok c)

abbrev pub requests_or : ReqControl → Option ReqControl → ReqControl
requests_or rc none = rc
requests_or rc (some rc') = rc'

abbrev pub message_sent : Option Message → List Effect
message_sent none = []
message_sent (some m) = sent m ∷ []

-- A failure to send closes the connection, wherever the call comes from.
unfoldable pub after_send :
    Connection → Option Errno → Option ReqControl → Option Message → Option Errno × Left
unfolding close_and_free_server
after_send c none control m =
    (none, (live (record c { req_control = requests_or c.req_control control }), message_sent m))
after_send c (some e) control m = (
  some e,
  close_and_free_server status_error (record c { req_control = requests_or c.req_control control }),
)

unfoldable pub send_request :
    Environment → Handle → Bytes → ℤ → Option ℕ → ℕ → ℤ → Run (Option Errno × Left)
unfolding after_send
send_request env freed buf size callback context timeout = fault
send_request env (live c) buf size callback context timeout =
    if is_invalid c.fd
    then done (some einval, (live c, []))
    else (let r = send env (some c.req_control) 0 buf size callback context timeout in
        done (after_send c r.error r.control r.sent))

-- Responses and unsolicited messages are sent without the database of requests.
unfoldable pub send_response : Environment → Handle → ℕ → Bytes → ℤ → Run (Option Errno × Left)
unfolding after_send
send_response env freed seq_num buf size = fault
send_response env (live c) seq_num buf size =
    if is_invalid c.fd
    then done (some einval, (live c, []))
    else (let r = send env none seq_num buf size none 0 (pos 0) in
        done (after_send c r.error none r.sent))

unfoldable pub send_unsolicited : Environment → Handle → Bytes → ℤ → Run (Option Errno × Left)
unfolding after_send
send_unsolicited env freed buf size = fault
send_unsolicited env (live c) buf size =
    if is_invalid c.fd
    then done (some einval, (live c, []))
    else (let r = send env none 0 buf size none 0 (pos 0) in
        done (after_send c r.error none r.sent))
