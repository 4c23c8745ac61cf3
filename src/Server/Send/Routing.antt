-- ===== src/Server/Send/Routing.antt =====
-- Who gets what pkg/src/af_ipc_server.c sends.
use af_ipc.Common.{
  ℕ, ◌+◌, ◌*◌, ◌%◌, ◌^◌, ◌<◌, ◌≡◌, ◌≢◌, refl, ap, ◌∙◌, Bool, true, false, not, ◌&&◌, Option, none,
  some, List, [], ◌∷◌, ◌++◌, arith, if◌then◌else◌, inl, inr, Bool-cases, ne→==, ℤ, map,
}
use af_ipc.Rpc.Memory.{Bytes}
use af_ipc.Ipc.SeqNum.{get_seq_id, get_client_id}
use af_ipc.Ipc.SeqNum.Masks.{get_seq_id_lem}
use af_ipc.Ipc.Requests.{Errno, ReqControl, shutdown_requests}
use af_ipc.Ipc.Send.{Message, send}
use af_ipc.Server.{
  Client, Server, Effect, sent, shut_read, free_event, free_timer, close_socket, call_accept,
  call_close, call_receive, find_client_by_cid, close_client, close_effects, is_silent,
  status_error,
}
use af_ipc.Server.Send.{
  Network, sent_to, close_on_error, send_response, send_unsolicited, send_request_to, send_request,
  with_requests, is_open, update_client,
}

-- What is sent goes to one socket only, and what is closed is that socket.
abbrev pub IsFor : ℤ → Effect → Type 0
IsFor fd (sent fd' m) = fd' ≡ fd
IsFor fd (shut_read fd') = fd' ≡ fd
IsFor fd (free_event fd') = fd' ≡ fd
IsFor fd (free_timer n) = Unit {0}
IsFor fd (close_socket fd') = fd' ≡ fd
IsFor fd (call_accept cid) = ⊥
IsFor fd (call_close status cid context) = Unit {0}
IsFor fd (call_receive cid d) = ⊥

abbrev pub AreFor : ℤ → List Effect → Type 0
AreFor fd [] = Unit {0}
AreFor fd (e ∷ es) = IsFor fd e × AreFor fd es

append-AreFor : (fd : ℤ) (es fs : List Effect) → AreFor fd es → AreFor fd fs → AreFor fd (es ++ fs)
append-AreFor fd [] fs h k = k
append-AreFor fd (e ∷ es) fs h k = (h.0, append-AreFor fd es fs h.1 k)

timers-AreFor : (fd : ℤ) (ns : List ℕ) → AreFor fd (map free_timer ns)
timers-AreFor fd [] = tt
timers-AreFor fd (n ∷ ns) = (tt, timers-AreFor fd ns)

event-AreFor : (fd : ℤ) (b : Bool) → AreFor fd (if b then free_event fd ∷ [] else [])
event-AreFor fd true = (refl, tt)
event-AreFor fd false = tt

call-AreFor :
    (fd status : ℤ) (cid context : ℕ) (b : Bool)
    → AreFor fd (if b then call_close status cid context ∷ [] else [])
call-AreFor fd status cid context true = (tt, tt)
call-AreFor fd status cid context false = tt

close_effects-AreFor :
    (status : ℤ) (c : Client) (s : Server) → AreFor c.client_fd (close_effects status c s)
unfolding close_effects
close_effects-AreFor status c s =
    let fd = c.client_fd in
    (
      refl,
      append-AreFor fd _ _ (event-AreFor fd c.recv_event) (
          append-AreFor fd _ _ (timers-AreFor fd (shutdown_requests c.req_control).1) (
            refl,
            call-AreFor fd status c.cid c.context (not (is_silent status) && s.close_callback),
          )),
    )

sent_to-AreFor : (fd : ℤ) (m : Option Message) → AreFor fd (sent_to fd m)
unfolding sent_to
sent_to-AreFor fd none = tt
sent_to-AreFor fd (some m) = (refl, tt)

close_on_error-AreFor :
    (c : Client) (e : Option Errno) (m : Option Message) (s : Server)
    → AreFor c.client_fd (close_on_error c e m s).2
unfolding close_on_error close_client
close_on_error-AreFor c none m s = sent_to-AreFor c.client_fd m
close_on_error-AreFor c (some e) m s = close_effects-AreFor status_error c s

with_requests-AreFor :
    (c : Client) (control : Option ReqControl) (e : Option Errno) (m : Option Message) (s : Server)
    → AreFor c.client_fd (close_on_error (with_requests c control) e m s).2
with_requests-AreFor c none e m s = close_on_error-AreFor c e m s
with_requests-AreFor c (some rc) e m s = close_on_error-AreFor (record c { req_control = rc }) e m s

response-AreFor :
    (net : Network) (s : Server) (n : ℕ) (buf : Bytes) (size : ℤ) (c : Client)
    → get_seq_id n ≢ 0
    → find_client_by_cid (get_client_id n % 2 ^ 16) s.clients ≡ some c
    → AreFor c.client_fd (send_response net s n buf size).2
unfolding send_response
response-AreFor net s n buf size c id found =
    rw (ne→== (get_seq_id n) 0 id, found) (close_on_error-AreFor c _ _ s)

unsolicited-AreFor :
    (net : Network) (s : Server) (cid : ℕ) (buf : Bytes) (size : ℤ) (c : Client)
    → cid ≢ 0
    → find_client_by_cid cid s.clients ≡ some c
    → AreFor c.client_fd (send_unsolicited net s cid buf size).2
unfolding send_unsolicited
unsolicited-AreFor net s cid buf size c one found = elim (Bool-cases (is_open c.client_fd)) [
  | inl open_fd ↦ rw (ne→== cid 0 one, found, open_fd) (close_on_error-AreFor c _ _ s)
  | inr bad ↦ rw (ne→== cid 0 one, found, bad) tt
]

request_to-AreFor :
    (net : Network) (c : Client) (buf : Bytes) (size : ℤ) (callback : Option ℕ) (context : ℕ)
    (timeout : ℤ) (s : Server)
    → AreFor c.client_fd (send_request_to net c buf size callback context timeout s).2
unfolding send_request_to
request_to-AreFor net c buf size callback context timeout s =
    let r = send (net c.client_fd) (some c.req_control) 0 buf size callback context timeout in
    let c' = with_requests c r.control in
    with_requests-AreFor c r.control r.error r.sent
      (record s { clients = update_client c.cid c'.req_control s.clients })

request-AreFor :
    (net : Network) (s : Server) (cid : ℕ) (buf : Bytes) (size : ℤ) (callback : Option ℕ)
    (context : ℕ) (timeout : ℤ) (c : Client)
    → cid ≢ 0
    → find_client_by_cid cid s.clients ≡ some c
    → AreFor c.client_fd (send_request net s cid buf size callback context timeout).2
unfolding send_request
request-AreFor net s cid buf size callback context timeout c one found =
    elim (Bool-cases (is_open c.client_fd)) [
      | inl open_fd ↦
          rw (ne→== cid 0 one, found, open_fd)
            (request_to-AreFor net c buf size callback context timeout s)
      | inr bad ↦ rw (ne→== cid 0 one, found, bad) tt
    ]

-- A response to a number with the client's ID, an unsolicited message to the ID and a request to it
-- concern the socket of that client only: whether the calls succeed or fail, nothing is sent on another
-- socket and no other socket is closed.
pub sends-AreFor :
    (net : Network) (s : Server) (cid seq_id : ℕ) (buf : Bytes) (size : ℤ) (callback : Option ℕ)
    (context : ℕ) (timeout : ℤ) (c : Client)
    → 0 < cid
    → cid < 2 ^ 16
    → 0 < seq_id
    → seq_id < 2 ^ 16
    → find_client_by_cid cid s.clients ≡ some c
    → AreFor c.client_fd (send_response net s (cid * 2 ^ 16 + seq_id) buf size).2
      × AreFor c.client_fd (send_unsolicited net s cid buf size).2
      × AreFor c.client_fd (send_request net s cid buf size callback context timeout).2
unfolding get_client_id
sends-AreFor net s cid seq_id buf size callback context timeout c pc hc ps hs found =
    let n = cid * 2 ^ 16 + seq_id in
    (
      response-AreFor net s n buf size c (omega (arith, get_seq_id_lem n))
          (ap (λ i. find_client_by_cid i s.clients) (omega arith) ∙ found),
      unsolicited-AreFor net s cid buf size c (omega arith) found,
      request-AreFor net s cid buf size callback context timeout c (omega arith) found,
    )
