-- ===== src/Server/Send.antt =====
-- The three ways to send of pkg/src/af_ipc_server.c.
pub mod Routing
pub mod Broadcast
use af_ipc.Common.{
  ℕ, zero, suc, ◌+◌, ◌%◌, ◌^◌, Bool, true, false, not, Option, none, some, List, [], ◌∷◌, ◌++◌,
  ◌==◌, if◌then◌else◌, ℤ, pos, negsuc, map,
}
use af_ipc.Rpc.Memory.{Bytes}
use af_ipc.Ipc.SeqNum.{get_seq_id, get_client_id}
use af_ipc.Ipc.Requests.{Errno, einval, enoent, ReqControl}
use af_ipc.Ipc.Send.{Message, Environment, Sent, send}
use af_ipc.Ipc.Receive.{Delivery, App, handle_receive_message}
use af_ipc.Server.{
  Client, Server, Effect, sent, call_receive, find_client_by_cid, close_client, status_error,
}

-- errno or 0, the server, and what happened.
abbrev pub Outcome : Type 0
Outcome = Option Errno × Server × List Effect

-- The answers of the system calls, by file descriptor.
abbrev pub Network : Type 0
Network = ℤ → Environment

abbrev pub is_open : ℤ → Bool
is_open (pos n) = true
is_open (negsuc n) = false

unfoldable pub sent_to : ℤ → Option Message → List Effect
sent_to fd none = []
sent_to fd (some m) = sent fd m ∷ []

-- The client's requests after the call.
unfoldable pub update_client : ℕ → ReqControl → List Client → List Client
update_client cid rc [] = []
update_client cid rc (c ∷ cs) =
    let rest = update_client cid rc cs in
    if c.cid == cid then record c { req_control = rc } ∷ cs else c ∷ rest

-- A failure to send closes the client.
unfoldable pub close_on_error : Client → Option Errno → Option Message → Server → Outcome
unfolding close_client sent_to
close_on_error c none m s = (none, s, sent_to c.client_fd m)
close_on_error c (some e) m s = let (s', es) = close_client status_error c s in (some e, s', es)

-- No server is the NULL pointer.
unfoldable pub send_response : Network → Server → ℕ → Bytes → ℤ → Outcome
unfolding find_client_by_cid close_on_error
send_response net s seq_num buf size =
    if get_seq_id seq_num == 0
    then (some einval, s, [])
    else elim (find_client_by_cid (get_client_id seq_num % 2 ^ 16) s.clients) [
      | none ↦ (some einval, s, [])
      | some c ↦
          let r = send (net c.client_fd) none seq_num buf size none 0 (pos 0) in
          close_on_error c r.error r.sent s
    ]

-- The broadcast: errors of single clients are passed over.
unfoldable pub broadcast : Network → Bytes → ℤ → List Client → List Effect
unfolding sent_to
broadcast net buf size [] = []
broadcast net buf size (c ∷ cs) =
    sent_to c.client_fd (send (net c.client_fd) none 0 buf size none 0 (pos 0)).sent
    ++ broadcast net buf size cs

unfoldable pub send_unsolicited : Network → Server → ℕ → Bytes → ℤ → Outcome
unfolding find_client_by_cid close_on_error broadcast
send_unsolicited net s client_id buf size =
    if client_id == 0
    then (none, s, broadcast net buf size s.clients)
    else elim (find_client_by_cid client_id s.clients) [
      | none ↦ (some enoent, s, [])
      | some c ↦
          let r = send (net c.client_fd) none 0 buf size none 0 (pos 0) in
          if is_open c.client_fd then close_on_error c r.error r.sent s else (some einval, s, [])
    ]

-- The client with the requests that af_ipc_send left.
abbrev pub with_requests : Client → Option ReqControl → Client
with_requests c none = c
with_requests c (some rc) = record c { req_control = rc }

unfoldable pub send_request_to : Network → Client → Bytes → ℤ → Option ℕ → ℕ → ℤ → Server → Outcome
unfolding close_on_error update_client
send_request_to net c buf size callback context timeout s =
    let r = send (net c.client_fd) (some c.req_control) 0 buf size callback context timeout in
    let c' = with_requests c r.control in
    close_on_error c' r.error r.sent
      (record s { clients = update_client c.cid c'.req_control s.clients })

unfoldable pub send_request : Network → Server → ℕ → Bytes → ℤ → Option ℕ → ℕ → ℤ → Outcome
unfolding find_client_by_cid send_request_to
send_request net s client_id buf size callback context timeout =
    if client_id == 0 then (some einval, s, []) else elim (find_client_by_cid client_id s.clients) [
      | none ↦ (some enoent, s, [])
      | some c ↦
          let r = send_request_to net c buf size callback context timeout s in
          if is_open c.client_fd then r else (some enoent, s, [])
    ]
