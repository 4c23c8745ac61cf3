-- ===== src/Client/Receive.antt =====
-- af_ipcc_client_on_recv of pkg/src/af_ipc_client.c, with callbacks that use the connection.
pub mod Quiet
use af_ipc.Common.{
  ℕ, zero, suc, ◌+◌, ◌-◌, ◌||◌, true, false, Option, none, some, List, [], ◌∷◌, ◌++◌, ltb, leb,
  if◌then◌else◌, ℤ, Run, fault, done, ◌>>=◌, length, take, drop,
}
use mathlib.Core.Option
use af_ipc.Rpc.Memory.{Bytes}
use af_ipc.Ipc.SeqNum.{get_seq_id}
use af_ipc.Ipc.Send.{Environment, msghdr_len}
use af_ipc.Ipc.Receive.{Delivery, header_seq_num, header_len, dispatch}
use af_ipc.Client.{
  Connection, Handle, live, freed, Effect, call_receive, Left, status_ok, status_error, close,
  close_and_free_server, send_request, send_response, send_unsolicited,
}

-- What a callback does with the connection.
pub data Action : Type 0 where
  closing : Action
  requesting : Bytes → ℤ → Option ℕ → ℕ → ℤ → Action
  responding : ℕ → Bytes → ℤ → Action
  notifying : Bytes → ℤ → Action

unfoldable pub act : Environment → Action → Handle → Run Left
unfolding close send_request send_response send_unsolicited
act env closing h = close h
act env (requesting buf size callback context timeout) h =
    send_request env h buf size callback context timeout >>= λ r. done r.1
act env (responding seq_num buf size) h = send_response env h seq_num buf size >>= λ r. done r.1
act env (notifying buf size) h = send_unsolicited env h buf size >>= λ r. done r.1

abbrev pub then_more : List Effect → Left → Left
then_more es (h, fs) = (h, es ++ fs)

unfoldable pub act_all : Environment → List Action → Handle → Run Left
unfolding act
act_all env [] h = done (h, [])
act_all env (a ∷ as') h =
    act env a h >>= λ (h', es). act_all env as' h' >>= λ r. done (then_more es r)

-- A call of the receive callback or of a response callback, and what it does: `acts` tells.
unfoldable pub call_one : Environment → (Delivery → List Action) → Delivery → Handle → Run Left
unfolding act_all
call_one env acts d h = act_all env (acts d) h >>= λ r. done (then_more (call_receive d ∷ []) r)

unfoldable pub call_all : Environment → (Delivery → List Action) → List Delivery → Handle → Run Left
unfolding call_one
call_all env acts [] h = done (h, [])
call_all env acts (d ∷ ds) h =
    call_one env acts d h >>= λ (h', es). call_all env acts ds h' >>= λ r. done (then_more es r)

-- One message: a request that it answers is taken off before its callback is called. The client's own
-- ID is 0.
unfoldable pub take_message :
    Environment → (Delivery → List Action) → ℕ → Bytes → Connection → Run Left
unfolding call_all dispatch
take_message env acts seq_id payload c =
    let (ds, rc) = dispatch (λ d r. r) c.receive_callback 0 seq_id payload c.req_control in
    call_all env acts ds (live (record c { req_control = rc }))

-- The next round. If a send of a callback has failed then the structure is freed: the code goes on
-- and uses it, at the latest when it clears the flag behind the loop.
abbrev pub continue_with : (Connection → Option (Run Left)) → Run Left → Option (Run Left)
continue_with rest fault = some fault
continue_with rest (done (freed, es)) = some fault
continue_with rest (done (live c, es)) = Option.map (λ x. x >>= λ r. done (then_more es r)) (rest c)

-- The loop of af_ipc_handle_receive_message from position `p` on, with `fuel` rounds at most, with the
-- database of requests in the connection, which the callbacks use.
unfoldable pub receive_messages :
    ℕ → Environment → (Delivery → List Action) → Bytes → ℕ → Connection → Option (Run Left)
unfolding take_message
receive_messages zero env acts buf p c = none
receive_messages (suc fuel) env acts buf p c =
    let m = header_len buf p in
    let rest = λ (c' : Connection). receive_messages fuel env acts buf (p + m) c' in
    if ltb p (length buf)
    then (if leb (length buf) (p + msghdr_len)
        then some (done (live c, []))
        else if ltb (length buf) (p + m) || ltb m msghdr_len
        then some (done (live c, []))
        else continue_with rest (
            take_message env acts (get_seq_id (header_seq_num buf p))
              (take (m - msghdr_len) (drop (p + msghdr_len) buf)) c))
    else some (done (live c, []))

-- What recv returns, with what each callback for a message of the packet does with the connection.
-- An error may be one to try again later (EAGAIN, EWOULDBLOCK).
pub data Arrival : Type 0 where
  packet : Bytes → (Delivery → List Action) → Arrival
  end_of_stream : Arrival
  try_again : Arrival
  failed : ℕ → Arrival

-- The flags after the messages: server->flags is of freed memory if a callback's send has failed.
unfoldable pub after_packet : (Handle → Run Left) → List Effect → Handle → Run Left
unfolding close_and_free_server
after_packet rest es freed = fault
after_packet rest es (live c) =
    let c' = record c { in_receive = false } in
    if c.marked
    then done (then_more es (close_and_free_server status_ok c'))
    else rest (live c') >>= λ r. done (then_more es r)

abbrev pub returned : Option (Run Left) → Run Left
returned none = fault
returned (some x) = x

-- The messages of a packet, with their callbacks. Each round moves on, so one more round than bytes
-- does; a loop that does not return counts as a fault.
unfoldable pub take_packet : Environment → (Delivery → List Action) → Bytes → Connection → Run Left
unfolding receive_messages
take_packet env acts buf c =
    returned (receive_messages (length buf + 1) env acts buf 0 (record c { in_receive = true }))

-- The list is what recv returns, call by call; its end is one more `try_again`.
unfoldable pub on_recv : Environment → List Arrival → Handle → Run Left
unfolding take_packet after_packet close_and_free_server
on_recv env arrivals freed = fault
on_recv env [] (live c) = done (live c, [])
on_recv env (packet buf acts ∷ arrivals) (live c) =
    take_packet env acts buf c >>= λ (h, es). after_packet (on_recv env arrivals) es h
on_recv env (end_of_stream ∷ arrivals) (live c) = done (close_and_free_server status_error c)
on_recv env (failed e ∷ arrivals) (live c) = done (close_and_free_server status_error c)
on_recv env (try_again ∷ arrivals) (live c) = done (live c, [])
