-- ===== src/Server/Tests.antt =====
-- The theorems on pkg/src/af_ipc_server.c, for a server with two clients.
use af_ipc.Common.{
  ℕ, ◌+◌, ◌*◌, ◌^◌, ◌<◌, ◌≡◌, refl, ap, true, false, Option, none, some, List, [], ◌∷◌, fault, done,
  arith, ◌==◌, if◌then◌else◌, ℤ, pos, negsuc,
}
use af_ipc.Rpc.Memory.{Bytes}
use af_ipc.Ipc.Requests.{Request, init_requests}
use af_ipc.Ipc.Send.{new_request, make_message, send_error, sent_bytes}
use af_ipc.Ipc.Receive.Exchange.{whole}
use af_ipc.Ipc.Receive.Stream.{wire}
use af_ipc.Server.{
  Client, Server, cleared, is_used, get_next_cid, find_client_by_cid, close_client_by_cid,
  status_ok, Resources, add_client, alloc_and_init_client, set_up, enter, next_cid, call_accept,
}
use af_ipc.Server.Ids.{get_next_cid-total, next_unused_free}
use af_ipc.Server.Valid.{IsServer}
use af_ipc.Server.Closed.{close_calls, close_client_by_cid-once}
use af_ipc.Ipc.SeqNum.{get_seq_id, seqnum_is_new_request}
use af_ipc.Server.Receive.{Arrival, packet, end_of_stream, Received, closing, responding, on_recv}
use af_ipc.Server.Receive.Ends.{reliable, ends, IsEnded, on_recv-ends}
use af_ipc.Server.Receive.Closed.{on_recv-closed}
use af_ipc.Server.Steps.{opened, here, step, notify, accept, Reachable-IsServer}
use af_ipc.Server.Send.{Network, send_response, send_unsolicited, send_request}
use af_ipc.Server.Send.Routing.{AreFor, sends-AreFor}
use af_ipc.Server.Send.Broadcast.{shares, broadcast-all}

abbrev client : ℕ → ℤ → Client
client cid fd = record {
  client_fd = fd;
  cid = cid;
  recv_event = true;
  req_control = cleared;
  context = 70;
}

-- The last ID was the greatest, and 1 is in use.
abbrev busy : Server
busy = record {
  clients = client 1 (pos 5) ∷ client 65535 (pos 6) ∷ [];
  last_cid = 65535;
  accept_callback = true;
  receive_callback = true;
  close_callback = true;
}

busy-IsServer : IsServer busy
unfolding is_used
busy-IsServer = record {
  last_word = omega arith;
  all_clients = (omega arith, omega arith, refl, (omega arith, omega arith, refl, tt));
}

found_1 : find_client_by_cid 1 busy.clients ≡ some (client 1 (pos 5))
unfolding find_client_by_cid
found_1 = refl

-- The socket 6 refuses.
abbrev net : Network
net (pos n) = record {
  slot = none;
  timer = none;
  sendmsg = λ m. if n == 6 then send_error 32 else sent_bytes 10;
}
net (negsuc n) = record { slot = none; timer = none; sendmsg = λ m. send_error 9 }

abbrev text : Bytes
text = 1 ∷ 2 ∷ []

get_next_cid-total_example :
    (c : ℕ) × (get_next_cid busy ≡ some c)
    × (0 < c)
    × (c < 2 ^ 16)
    × (is_used c busy.clients ≡ false)
get_next_cid-total_example = get_next_cid-total busy (omega arith) (omega arith)

-- A client comes, with the ID 1.
abbrev fresh : Client
fresh = record {
  client_fd = pos 5;
  cid = 1;
  recv_event = true;
  req_control = record { last_seq_id = 0; mutex_created = true; pending = []; pool = true };
  context = 8;
}

abbrev with_fresh : Server
with_fresh = record (opened true true true) { clients = fresh ∷ []; last_cid = 1 }

abbrev resources : Resources
resources = record { alloc = true; pool = true; mutex = 0; event = true }

first_id : get_next_cid (opened true true true) ≡ some 1
unfolding get_next_cid next_cid is_used
first_id = next_unused_free 65534 0 [] refl

accepted_fresh :
    add_client resources (λ cid. cid + 7) (pos 5) (opened true true true)
    ≡ some (some fresh, with_fresh, call_accept 1 ∷ [])
unfolding add_client alloc_and_init_client set_up enter init_requests
accepted_fresh =
    ap
      (λ (o : Option ℕ).
        set_up true (λ cid. cid + 7) (pos 5) (opened true true true)
          (elim o [
            | none ↦ none
            | some cid ↦
                some (enter (init_requests true 0 (some cleared)) cid (opened true true true))
          ]))
      first_id

-- It comes, and the server sends it a message.
Reachable-IsServer_example : IsServer (send_unsolicited net with_fresh 1 text (pos 2)).1
Reachable-IsServer_example =
    Reachable-IsServer true true true (send_unsolicited net with_fresh 1 text (pos 2)).1 (
      step with_fresh (send_unsolicited net with_fresh 1 text (pos 2)).1
        (step (opened true true true) with_fresh here (
          accept resources (λ cid. cid + 7) (pos 5) (opened true true true) with_fresh (some fresh)
            (call_accept 1 ∷ []) accepted_fresh))
        (notify net 1 text (pos 2) with_fresh))

abbrev slot : Request
slot = new_request 0 0 none 0

-- A request is answered and the other client closed; then the stream ends.
abbrev arrivals : List Arrival
arrivals =
    packet (wire (whole 0x8003 text))
      (λ d. responding (1 * 2 ^ 16 + 3) text (pos 2) ∷ closing 65535 ∷ [])
    ∷ end_of_stream
    ∷ []

on_recv-ends_example :
    (q : Received) × (on_recv (reliable slot) arrivals 1 busy ≡ done q)
    × IsEnded 1 (ends arrivals) q.0
unfolding is_used
on_recv-ends_example =
    on_recv-ends slot arrivals 1 busy (λ d. (refl, (omega arith, tt)), tt) busy-IsServer refl

on_recv-closed_example :
    on_recv net (packet (wire (whole 0x8003 text)) (λ d. closing 1 ∷ []) ∷ []) 1 busy ≡ fault
unfolding get_seq_id seqnum_is_new_request
on_recv-closed_example =
    on_recv-closed net (λ d. closing 1 ∷ []) [] 1 (wire (whole 0x8003 text)) busy
      (record {
        has_body = omega arith;
        has_header = omega arith;
        inside = omega arith;
        for_callback = refl;
      })
      refl refl busy-IsServer

sends-AreFor_example :
    AreFor (pos 5) (send_response net busy (1 * 2 ^ 16 + 9) text (pos 2)).2
    × AreFor (pos 5) (send_unsolicited net busy 1 text (pos 2)).2
    × AreFor (pos 5) (send_request net busy 1 text (pos 2) (some 3) 4 (pos 1000)).2
sends-AreFor_example =
    sends-AreFor net busy 1 9 text (pos 2) (some 3) 4 (pos 1000) (client 1 (pos 5)) (omega arith)
      (omega arith) (omega arith) (omega arith) found_1

close_client_by_cid-once_example :
    let r = close_client_by_cid 1 busy in
    (r.0 ≡ true)
    × (close_calls r.2 ≡ (status_ok, 1, 70) ∷ [])
    × (is_used 1 r.1.clients ≡ false)
    × (find_client_by_cid 65535 r.1.clients ≡ find_client_by_cid 65535 busy.clients)
    × IsServer r.1
close_client_by_cid-once_example =
    close_client_by_cid-once busy 1 65535 (client 1 (pos 5)) busy-IsServer refl found_1
      (omega arith)

broadcast-all_example :
    send_unsolicited net busy 0 text (pos 2)
    ≡ (none, busy, shares net (make_message 0 text (pos 2)) busy.clients)
broadcast-all_example = broadcast-all net busy text (pos 2) refl
