-- ===== src/Ipc/Tests.antt =====
-- The theorems on pkg/src/af_ipc_common.c, in concrete states.
use af_ipc.Common.{
  ◌+◌, ◌*◌, ◌^◌, ◌≤◌, ◌<◌, ◌≡◌, ◌≢◌, refl, none, some, List, [], ◌∷◌, ◌++◌, arith, true, false, pos,
  negsuc,
}
use af_ipc.Rpc.Memory.{Bytes}
use af_ipc.Ipc.SeqNum.{
  get_seq_id, seqnum_is_new_request, tag_client, mark_new_request, get_client_id_from_seq_num,
  seq_num_is_request, build_seqnum,
}
use af_ipc.Ipc.SeqNum.Masks.{tag_client_parts}
use af_ipc.Ipc.Requests.{
  Request, ReqControl, find_pending, next_seq_id, expired_call, on_timeout, remove_request,
  init_requests,
}
use af_ipc.Ipc.Requests.Ids.{seq_id_at, gen_seq_id_cycle}
use af_ipc.Ipc.Requests.Pending.{IsValid}
use af_ipc.Ipc.Send.{
  Environment, sent_bytes, send, send_in_time, transmit, make_message, new_request, too_long,
}
use af_ipc.Ipc.Send.Effect.{
  IsSettled, expected_control, expected_message, with_request, send-IsSettled,
}
use af_ipc.Ipc.Send.Length.{send-length, negative_too_long}
use af_ipc.Ipc.Send.Valid.{on_timeout_lem}
use af_ipc.Ipc.Receive.{Delivery, incoming, reply, dispatch, handle_receive_message}
use af_ipc.Ipc.Receive.Deliveries.{AreDeliveries, total_size}
use af_ipc.Ipc.Receive.Total.{handle_receive-total}
use af_ipc.Ipc.Receive.Stream.{wire, stream, dispatch_all, receive-stream}
use af_ipc.Ipc.Receive.Replies.{quiet, reply_found}
use af_ipc.Ipc.Receive.Exchange.{whole, request_answered}
use af_ipc.Ipc.Table.{Call, ask, arrive, expire, numbered, called, timed_out, take_calls}
use af_ipc.Ipc.Table.Refine.{take_calls-table_calls}

-- One request is pending, the one with the number 6.
abbrev asked : Request
asked = new_request 6 1000 (some 40) 41

abbrev busy : ReqControl
busy = record { last_seq_id = 6; mutex_created = true; pending = asked ∷ []; pool = true }

none_other : find_pending 6 [] ≡ none
unfolding find_pending
none_other = refl

busy-IsValid : IsValid busy
busy-IsValid = record {
  last_in_range = omega arith;
  all_pending = (omega arith, omega arith, omega arith, tt);
  distinct = (none_other, tt);
}

next_free : find_pending (next_seq_id 6) (asked ∷ []) ≡ none
unfolding find_pending next_seq_id
next_free = refl

found_6 : find_pending 6 (asked ∷ []) ≡ some asked
unfolding find_pending
found_6 = refl

-- Memory for one more request; sendmsg succeeds.
abbrev calm : Environment
calm = record { slot = some asked; timer = none; sendmsg = λ m. sent_bytes 5 }

abbrev text : Bytes
text = 1 ∷ 2 ∷ 3 ∷ []

gen_seq_id_cycle_example :
    (0 < seq_id_at 4 busy)
    × (seq_id_at 4 busy < 2 ^ 15)
    × (seq_id_at 4 busy ≢ seq_id_at (4 + 100) busy)
    × (seq_id_at (4 + 32767) busy ≡ seq_id_at 4 busy)
gen_seq_id_cycle_example = gen_seq_id_cycle busy 4 100 (omega arith) (omega arith) (omega arith)

tag_client_parts_example :
    let n = tag_client 3 (get_seq_id (mark_new_request 7)) in
    (get_client_id_from_seq_num n ≡ 3)
    × (get_seq_id n ≡ 7)
    × (seqnum_is_new_request (get_seq_id n) ≡ false)
    × (seq_num_is_request n ≡ true)
    × (n ≡ build_seqnum 3 7)
tag_client_parts_example = tag_client_parts 3 7 (omega arith) (omega arith) (omega arith)

send-IsSettled_example :
    IsSettled calm.sendmsg busy
      (expected_control busy (some 50) 51 (pos 2000))
      (expected_message busy 0 text (pos 3) (pos 2000))
      (send calm (some busy) 0 text (pos 3) (some 50) 51 (pos 2000))
send-IsSettled_example = send-IsSettled calm busy 0 text (pos 3) (some 50) 51 (pos 2000)

sent_9 : (send calm none 9 text (pos 3) none 0 (negsuc 0)).sent ≡ some (make_message 9 text (pos 3))
unfolding send send_in_time transmit
sent_9 = refl

send-length_example :
    let m = make_message 9 text (pos 3) in (m.len ≡ 11) × (m.body_len ≡ 3) × (m.len ≤ 4096)
send-length_example =
    send-length calm none 9 text 3 none 0 (negsuc 0) (make_message 9 text (pos 3)) (omega arith)
      sent_9

negative_too_long_example : too_long (negsuc 3) ≡ false
negative_too_long_example = negative_too_long 3 (omega arith)

on_timeout_lem_example :
    ((on_timeout asked busy).0 ≡ some (expired_call 40 41))
    × (find_pending 6 (on_timeout asked busy).1.pending ≡ none)
    × (find_pending 9 (on_timeout asked busy).1.pending ≡ find_pending 9 (asked ∷ []))
    × IsValid (on_timeout asked busy).1
on_timeout_lem_example = on_timeout_lem asked busy 40 9 busy-IsValid refl (omega arith)

handle_receive-total_example :
    (r : List Delivery × ReqControl) × (handle_receive_message quiet true 3
        (wire (whole 6 text) ++ text)
        busy
      ≡ some r)
    × AreDeliveries 3 r.0
    × (total_size r.0 ≤ 14)
handle_receive-total_example =
    handle_receive-total quiet true 3 (wire (whole 6 text) ++ text) busy (omega arith)

receive-stream_example :
    handle_receive_message quiet true 3 (stream (whole 0 text ∷ whole 6 text ∷ [])) busy
    ≡ some (dispatch_all quiet true 3 (whole 0 text ∷ whole 6 text ∷ []) busy)
receive-stream_example = receive-stream quiet true 3 (whole 0 text ∷ whole 6 text ∷ []) busy (
  record { seq_num_word = omega arith; not_empty = omega arith; exact = refl; short = omega arith },
  (
    record {
      seq_num_word = omega arith;
      not_empty = omega arith;
      exact = refl;
      short = omega arith;
    },
    tt,
  ),
)

reply_found_example :
    let d = reply 40 41 6 text in
    let left = remove_request busy 6 in
    (dispatch quiet true 3 6 text busy ≡ (d ∷ [], left))
    × (dispatch quiet true 3 6 text left ≡ ([], left))
    × (find_pending 9 left.pending ≡ find_pending 9 (asked ∷ []))
    × IsValid left
reply_found_example =
    reply_found quiet true 3 6 9 40 text busy asked busy-IsValid (omega arith) (omega arith)
      (omega arith) found_6 refl

request_answered_example :
    (handle_receive_message quiet true 3 (wire (whole (mark_new_request (next_seq_id 6)) text)) busy
      ≡ some (incoming (3 * 2 ^ 16 + next_seq_id 6) text ∷ [], busy))
    × (get_client_id_from_seq_num (3 * 2 ^ 16 + next_seq_id 6) ≡ 3)
    × (handle_receive_message quiet true 0
          (wire (whole (3 * 2 ^ 16 + next_seq_id 6) (4 ∷ [])))
          (with_request busy (some 50) 51 2000)
        ≡ some (
          reply 50 51 (next_seq_id 6) (4 ∷ []) ∷ [],
          record busy { last_seq_id = next_seq_id 6 },
        ))
request_answered_example =
    request_answered quiet quiet true 3 0 50 51 2000 text (4 ∷ []) busy busy (omega arith)
      (omega arith) (omega arith, omega arith) (omega arith, omega arith)

-- Two requests, the second one without a callback; replies to both, and one more to the first, whose
-- timeout comes too late.
abbrev calls : List Call
calls =
    ask (some 40) 41 1000
    ∷ ask none 0 1000
    ∷ arrive 2 (1 ∷ [])
    ∷ arrive 1 (9 ∷ [])
    ∷ arrive 1 []
    ∷ expire 1
    ∷ []

abbrev fresh : ReqControl
fresh = record { last_seq_id = 0; mutex_created = true; pending = []; pool = true }

take_calls-table_calls_example :
    take_calls asked calls fresh
    ≡ numbered 1
      ∷ numbered 2
      ∷ called []
      ∷ called (reply 40 41 1 (9 ∷ []) ∷ [])
      ∷ called []
      ∷ timed_out none
      ∷ []
unfolding init_requests
take_calls-table_calls_example = take_calls-table_calls fresh asked calls fresh refl (omega arith)
