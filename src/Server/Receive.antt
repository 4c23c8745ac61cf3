-- ===== src/Server/Receive.antt =====
-- on_recv of pkg/src/af_ipc_server.c, with callbacks that use the server.
pub mod Kept
pub mod Ends
pub mod Closed
use af_ipc.Common.{
  ℕ, zero, suc, ◌+◌, ◌-◌, ◌||◌, Option, none, some, List, [], ◌∷◌, ◌++◌, ltb, leb, if◌then◌else◌, ℤ,
  Run, fault, done, ◌>>=◌, length, take, drop,
}
use mathlib.Core.Option
use af_ipc.Rpc.Memory.{Bytes}
use af_ipc.Ipc.SeqNum.{get_seq_id}
use af_ipc.Ipc.Send.{msghdr_len}
use af_ipc.Ipc.Receive.{Delivery, header_seq_num, header_len, dispatch}
use af_ipc.Server.{
  Server, Effect, call_receive, find_client_by_cid, close_client, close_client_by_cid, status_error,
}
use af_ipc.Server.Send.{Network, update_client, send_response, send_unsolicited, send_request}

-- What a callback does with the server.
pub data Action : Type 0 where
  closing : ℕ → Action
  responding : ℕ → Bytes → ℤ → Action
  notifying : ℕ → Bytes → ℤ → Action
  requesting : ℕ → Bytes → ℤ → Option ℕ → ℕ → ℤ → Action

-- The server, and what happened.
abbrev pub Received : Type 0
Received = Server × List Effect

abbrev pub then_more : List Effect → Received → Received
then_more es (s, fs) = (s, es ++ fs)

unfoldable pub act : Network → Action → Server → Received
unfolding close_client_by_cid send_response send_unsolicited send_request
act net (closing cid) s = let (ok, s', es) = close_client_by_cid cid s in (s', es)
act net (responding seq_num buf size) s =
    let (e, s', es) = send_response net s seq_num buf size in (s', es)
act net (notifying cid buf size) s =
    let (e, s', es) = send_unsolicited net s cid buf size in (s', es)
act net (requesting cid buf size callback context timeout) s =
    let (e, s', es) = send_request net s cid buf size callback context timeout in (s', es)

unfoldable pub act_all : Network → List Action → Server → Received
unfolding act
act_all net [] s = (s, [])
act_all net (a ∷ as') s = let (s', es) = act net a s in then_more es (act_all net as' s')

-- The calls of callbacks for the client `cid`, and what each does: `acts` tells.
unfoldable pub call_all : Network → (Delivery → List Action) → ℕ → List Delivery → Server → Received
unfolding act_all
call_all net acts cid [] s = (s, [])
call_all net acts cid (d ∷ ds) s =
    let (s', es) = act_all net (acts d) s in
    then_more (call_receive cid d ∷ es) (call_all net acts cid ds s')

-- One message: a request that it answers is taken off before its callback is called. If a callback
-- has closed the client then its structure is freed: the code goes on and uses it, at the latest
-- when it clears the flag behind the loop.
unfoldable pub take_message :
    Network → (Delivery → List Action) → ℕ → ℕ → Bytes → Server → Run Received
unfolding call_all dispatch find_client_by_cid update_client
take_message net acts cid seq_id payload s = elim (find_client_by_cid cid s.clients) [
  | none ↦ fault
  | some c ↦
      let (ds, rc) = dispatch (λ d r. r) s.receive_callback cid seq_id payload c.req_control in
      done (call_all net acts cid ds (record s { clients = update_client cid rc s.clients }))
]

abbrev pub continue_with : (Server → Option (Run Received)) → Run Received → Option (Run Received)
continue_with rest fault = some fault
continue_with rest (done (s, es)) = Option.map (λ x. x >>= λ r. done (then_more es r)) (rest s)

-- The loop of af_ipc_handle_receive_message from position `p` on, with `fuel` rounds at most, with the
-- database of requests in the client.
unfoldable pub receive_messages :
    ℕ → Network → (Delivery → List Action) → ℕ → Bytes → ℕ → Server → Option (Run Received)
unfolding take_message
receive_messages zero net acts cid buf p s = none
receive_messages (suc fuel) net acts cid buf p s =
    let m = header_len buf p in
    let rest = λ (s' : Server). receive_messages fuel net acts cid buf (p + m) s' in
    if ltb p (length buf)
    then (if leb (length buf) (p + msghdr_len)
        then some (done (s, []))
        else if ltb (length buf) (p + m) || ltb m msghdr_len
        then some (done (s, []))
        else continue_with rest (
            take_message net acts cid (get_seq_id (header_seq_num buf p))
              (take (m - msghdr_len) (drop (p + msghdr_len) buf)) s))
    else some (done (s, []))

-- What recv returns: bytes, with what each callback for a message of them does; 0 at the end of the
-- stream; or an error, which may be one to try again later (EAGAIN, EWOULDBLOCK, EINTR).
pub data Arrival : Type 0 where
  packet : Bytes → (Delivery → List Action) → Arrival
  end_of_stream : Arrival
  try_again : Arrival
  failed : ℕ → Arrival

abbrev pub returned : Option (Run Received) → Run Received
returned none = fault
returned (some x) = x

-- Each round moves on, so one more round than bytes does; a loop that does not return counts as a
-- fault.
unfoldable pub take_packet : Network → (Delivery → List Action) → ℕ → Bytes → Server → Run Received
unfolding receive_messages
take_packet net acts cid buf s = returned (receive_messages (length buf + 1) net acts cid buf 0 s)

-- client->flags is read and written behind the loop. No code sets the flag that marks the client for
-- the shutdown.
unfoldable pub after_packet : (Server → Run Received) → ℕ → Received → Run Received
unfolding find_client_by_cid
after_packet rest cid (s, es) = elim (find_client_by_cid cid s.clients) [
  | none ↦ fault
  | some c ↦ rest s >>= λ r. done (then_more es r)
]

-- close_client of the client `cid`, which is a use of freed memory if it is gone.
unfoldable pub close_lost : ℕ → Server → Run Received
unfolding find_client_by_cid close_client
close_lost cid s = elim (find_client_by_cid cid s.clients) [
  | none ↦ fault
  | some c ↦ done (close_client status_error c s)
]

-- The list is what recv returns, call by call, and its end is one more `try_again`. The event is that
-- of the client `cid`.
unfoldable pub on_recv : Network → List Arrival → ℕ → Server → Run Received
unfolding take_packet after_packet close_lost
on_recv net [] cid s = done (s, [])
on_recv net (packet buf acts ∷ arrivals) cid s =
    take_packet net acts cid buf s >>= after_packet (on_recv net arrivals cid) cid
on_recv net (end_of_stream ∷ arrivals) cid s = close_lost cid s
on_recv net (failed e ∷ arrivals) cid s = close_lost cid s
on_recv net (try_again ∷ arrivals) cid s = done (s, [])
