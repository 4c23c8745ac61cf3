-- ===== src/Tools/Send/Asked.antt =====
-- A request of pkg/src/ipc_send.c and its reply, step by step.
use af_ipc.Common.{
  ℕ, suc, ◌+◌, ◌*◌, ◌%◌, ◌^◌, ◌≤◌, ◌<◌, ◌≡◌, refl, ap, arith, true, false, some, List, [], ◌∷◌,
  ◌++◌, append_assoc, map, ge→ltb, pos, done, length, length-append, drop,
}
use af_ipc.Rpc.Memory.{Bytes, be16}
use af_ipc.Rpc.Items.{Item, blob, AllItems, encode_all}
use af_ipc.Rpc.Params.RoundTrip.{get_params_found}
use af_ipc.Ipc.Requests.{Request, find_unused_request, gen_seq_id, next_seq_id}
use af_ipc.Ipc.Send
use af_ipc.Ipc.Send.{
  Environment, Message, send, send_in_time, register, start_timer, transmit, too_long,
}
use af_ipc.Ipc.Send.Effect.{with_request}
use af_ipc.Ipc.Receive.Stream.{wire}
use af_ipc.Ipc.Receive.Replies.{quiet}
use af_ipc.Ipc.Receive.Exchange.{whole, request_answered}
use af_ipc.Client
use af_ipc.Client.{Connection, Handle, live, after_send}
use af_ipc.Client.Receive.{packet, on_recv, after_packet}
use af_ipc.Client.Receive.Quiet.{passive_acts, take_packet-quiet}
use af_ipc.Client.Orderly.{calm}
use af_ipc.Client.Life.{IsIdle}
use af_ipc.Tools.Parser.{zero_params}
use af_ipc.Tools.Print.{zeros, print_reply}
use af_ipc.Tools.Print.Numbers.{store_front}
use af_ipc.Tools.Print.Blobs.{length-zeros}
use af_ipc.Tools.Print.Blobs.Joined.{joined, AllSmall, print_params-blobs}
use af_ipc.Tools.Deliver.{permissive-AreExpected}
use af_ipc.Tools.Process.{
  Process, new_process, handle_receive, take_effect, take_effects, take_left, on_event, readable,
}
use af_ipc.Tools.Send.{send_tx}

-- The connection with the request pending, and after its reply.
abbrev pub asking : Connection → Connection
asking c = record c { req_control = with_request c.req_control (some 0) 0 3000 }

abbrev pub answered : Connection → Connection
answered c = record c {
  in_receive = false;
  marked = false;
  req_control = record (c.req_control) { last_seq_id = next_seq_id c.req_control.last_seq_id };
}

short_enough : (size : ℕ) → size ≤ 256 → too_long (pos size) ≡ false
short_enough size h = ge→ltb 4096 ((size % 2 ^ 64 + 8) % 2 ^ 64) (omega arith)

-- The request is sent, and waits.
pub send_tx-asking :
    (slot : Request) (tx : Bytes) (size : ℕ) (c : Connection)
    → IsIdle 0 c
    → size ≤ 256
    → send_tx (calm slot) tx size (new_process (some (live c)))
      ≡ done (new_process (some (live (asking c))))
unfolding send_tx af_ipc.Client.send_request send send_in_time af_ipc.Ipc.Send.send_request register
    start_timer find_unused_request gen_seq_id transmit after_send take_left take_effects
    take_effect
send_tx-asking slot tx size c h fits = rw (h.opened.valid, short_enough size fits) refl

-- The process with the reply in outBuffer.
abbrev pub replied : Connection → Bytes → Process
replied c answer = record {
  server = some (live (answered c));
  data_received = true;
  out_buffer = answer ++ drop (length answer) (zeros 256);
  out_buffer_size = length answer;
}

pub reply-replied :
    (env : Environment) (c : Connection) (client_id : ℕ) (answer : Bytes)
    → IsIdle 0 c
    → client_id < 2 ^ 16
    → c.req_control.last_seq_id < 2 ^ 15
    → 0 < length answer
    → length answer ≤ 256
    → on_event env
        (readable (
          packet
            (wire (whole (client_id * 2 ^ 16 + next_seq_id c.req_control.last_seq_id) answer))
            passive_acts
          ∷ []))
        (new_process (some (live (asking c))))
      ≡ done (replied c answer)
unfolding on_event on_recv after_packet take_left take_effects take_effect handle_receive
reply-replied env c client_id answer h hc hs some_bytes fits =
    let (asked, same, told) =
      request_answered quiet quiet c.receive_callback client_id 0 0 0 3000 answer answer
        c.req_control c.req_control hc hs (some_bytes, omega arith) (some_bytes, omega arith) in
    rw
      (
        take_packet-quiet env _ (asking c) _ _ told,
        h.not_marked,
        store_front (zeros 256) answer (omega (arith, length-zeros 256)),
      )
      refl

-- The reply is printed.
abbrev pub encoded : List Item → Bytes
encoded xs = be16 (2 + length (encode_all xs)) ++ encode_all xs

blobs-AllItems : (vs : List Bytes) → AllSmall vs → AllItems (map blob vs)
blobs-AllItems [] h = tt
blobs-AllItems (v ∷ vs) h = (h.0, blobs-AllItems vs h.1)

length-map : (vs : List Bytes) → length (map blob vs) ≡ length vs
length-map [] = refl
length-map (v ∷ vs) = ap suc (length-map vs)

pub print_reply-blobs :
    (address : ℕ) (v : Bytes) (vs : List Bytes)
    → AllSmall (v ∷ vs)
    → length vs < 16
    → length (encoded (blob v ∷ map blob vs)) ≤ 256
    → length (joined v vs) < 255
    → let answer = encoded (blob v ∷ map blob vs) in
      print_reply address (answer ++ drop (length answer) (zeros 256)) (pos (length answer))
      ≡ done (some (joined v vs))
unfolding print_reply
print_reply-blobs address v vs small few fits room =
    let xs = blob v ∷ map blob vs in
    let body = encode_all xs in
    let answer = encoded xs in
    let rest = drop (length answer) (zeros 256) in
    let (entries, e, r, l) =
      get_params_found xs address (length answer) 16 (answer ++ rest) true (zero_params 16)
        (blobs-AllItems (v ∷ vs) small) (rest, append_assoc (be16 (2 + length body)) body rest)
        (omega arith) (omega (arith, length-append answer rest)) (omega arith)
        (permissive-AreExpected xs (zero_params 16) (omega (arith, length-map vs)))
        (omega (arith, length-map vs)) in
    rw (e, length-map vs) (print_params-blobs v vs entries small r room)
