-- ===== src/Client/Tests.antt =====
-- The theorems on pkg/src/af_ipc_client.c, for one connection.
use af_ipc.Common.{◌≡◌, refl, true, false, none, some, List, [], ◌∷◌, pos, fault, done, arith}
use af_ipc.Rpc.Memory.{Bytes}
use af_ipc.Ipc.SeqNum.{get_seq_id, seqnum_is_new_request}
use af_ipc.Ipc.Requests.{Request}
use af_ipc.Ipc.Send.{Environment, send_error, new_request}
use af_ipc.Ipc.Receive.Exchange.{whole}
use af_ipc.Ipc.Receive.Stream.{wire}
use af_ipc.Client.{Connection, live, Left}
use af_ipc.Client.Open.{Opening, open_server, IsOpening, open_server-IsReady}
use af_ipc.Client.Receive.{closing, requesting, responding, Arrival, packet, end_of_stream, on_recv}
use af_ipc.Client.Orderly.{calm}
use af_ipc.Client.Life.{IsOrderly, on_recv-IsOrderly, on_recv_fails}

abbrev connection : Connection
connection = record {
  fd = pos 5;
  in_receive = false;
  marked = false;
  receive_callback = true;
  close_callback = true;
  context = 70;
  event = true;
  req_control = record { last_seq_id = 0; mutex_created = true; pending = []; pool = true };
}

abbrev slot : Request
slot = new_request 0 0 none 0

abbrev text : Bytes
text = 1 ∷ 2 ∷ []

-- The first packet is answered; in the second one the connection is closed twice.
abbrev arrivals : List Arrival
arrivals =
    packet (wire (whole 0x8003 text)) (λ d. responding 3 text (pos 2) ∷ [])
    ∷ packet (wire (whole 0 text))
        (λ d. closing ∷ requesting text (pos 2) (some 9) 8 (pos 1000) ∷ closing ∷ [])
    ∷ end_of_stream
    ∷ []

on_recv-IsOrderly_example :
    (q : Left) × (on_recv (calm slot) arrivals (live connection) ≡ done q) × IsOrderly 70 q
on_recv-IsOrderly_example =
    on_recv-IsOrderly slot 70 arrivals connection
      (λ d. (refl, tt), (λ d. (tt, (refl, (tt, tt))), tt))
      (record {
        opened = record { has_callback = refl; same_context = refl; valid = refl };
        not_in_receive = refl;
        not_marked = refl;
      })

abbrev broken : Environment
broken = record { slot = some slot; timer = none; sendmsg = λ m. send_error 32 }

on_recv_fails_example :
    on_recv broken
      (packet (wire (whole 0x8003 text)) (λ d. responding 3 text (pos 2) ∷ []) ∷ [])
      (live connection)
    ≡ fault
unfolding get_seq_id seqnum_is_new_request
on_recv_fails_example =
    on_recv_fails broken [] connection (wire (whole 0x8003 text)) text
      (λ d. responding 3 text (pos 2) ∷ []) 3 32 (pos 2)
      (record {
        has_body = omega arith;
        has_header = omega arith;
        inside = omega arith;
        for_callback = refl;
      })
      refl refl refl refl refl

-- The connection is refused.
abbrev refused : Opening
refused = record {
  base = true;
  memory = true;
  socket = pos 5;
  connect = λ path. false;
  pool = true;
  mutex = 0;
  event = true;
}

open_server-IsReady_example :
    IsOpening refused.event 70 (open_server refused text text true 70 true)
open_server-IsReady_example = open_server-IsReady refused text text true 70 (omega arith)
