-- ===== src/Ipc/Receive/Exchange.antt =====
-- A request, from pkg/src/af_ipc_common.c's af_ipc_send on one side to the reply that
-- af_ipc_handle_receive_message hands to the callback on the same side.
use af_ipc.Common.{
  ℕ, ◌+◌, ◌*◌, ◌%◌, ◌^◌, ◌≤◌, ◌<◌, ◌≡◌, refl, ap, sym, ◌∙◌, Bool, true, some, [], ◌∷◌, append-nil,
  arith, pos, length, take_all,
}
use af_ipc.Rpc.Memory.{Bytes}
use af_ipc.Ipc.SeqNum.{get_seq_id, mark_new_request, get_client_id_from_seq_num}
use af_ipc.Ipc.SeqNum.Masks.{get_seq_id_lem, mark_new_request_lem, client_id_lem}
use af_ipc.Ipc.Requests.{ReqControl, remove_request, next_seq_id}
use af_ipc.Ipc.Requests.Ids.{next_seq_id_bounds}
use af_ipc.Ipc.Requests.Pending.{find_pending_head, remove_pending_head}
use af_ipc.Ipc.Send.{Message, make_message, new_request}
use af_ipc.Ipc.Send.Effect.{with_request}
use af_ipc.Ipc.Receive.{Delivery, incoming, reply, App, dispatch, after, handle_receive_message}
use af_ipc.Ipc.Receive.Stream.{wire, IsFramed, receive-stream}
use af_ipc.Ipc.Receive.Replies.{dispatch-request, dispatch_found}

-- The message of a whole buffer.
abbrev pub whole : ℕ → Bytes → Message
whole seq_num buf = make_message seq_num buf (pos (length buf))

abbrev pub IsPayload : Bytes → Type 0
IsPayload buf = (0 < length buf) × (length buf + 8 ≤ 4096)

whole_body : (seq_num : ℕ) (buf : Bytes) → IsPayload buf → (whole seq_num buf).body ≡ buf
whole_body seq_num buf h = take_all buf (length buf % 2 ^ 64) (omega (arith, h.1))

whole-IsFramed :
    (seq_num : ℕ) (buf : Bytes) → seq_num < 2 ^ 32 → IsPayload buf → IsFramed (whole seq_num buf)
whole-IsFramed seq_num buf hs h =
    let l = ap length (whole_body seq_num buf h) in
    record {
      seq_num_word = hs;
      not_empty = omega (arith, l, h.0);
      exact = omega (arith, l, h.1);
      short = omega (arith, h.1);
    }

-- One message in a packet of its own.
receive_whole :
    (app : App) (has_callback : Bool) (client_id seq_num : ℕ) (buf : Bytes) (rc rc' : ReqControl)
    (d : Delivery)
    → seq_num < 2 ^ 32
    → IsPayload buf
    → dispatch app has_callback client_id (get_seq_id seq_num) buf rc ≡ (d ∷ [], rc')
    → handle_receive_message app has_callback client_id (wire (whole seq_num buf)) rc
      ≡ some (d ∷ [], rc')
receive_whole app has_callback client_id seq_num buf rc rc' d hs h e =
    let m = whole seq_num buf in
    ap (λ b. handle_receive_message app has_callback client_id b rc) (sym (append-nil (wire m)))
    ∙ receive-stream app has_callback client_id (m ∷ []) rc (whole-IsFramed seq_num buf hs h, tt)
    ∙ ap
        (λ b.
          let r = dispatch app has_callback client_id (get_seq_id seq_num) b rc in
          some (after r.0 ([], r.1)))
        (whole_body seq_num buf h)
    ∙ ap (λ r. some (after r.0 ([], r.1))) e

reply_to_request :
    (app : App) (has_callback : Bool) (client_id c context t : ℕ) (answer : Bytes) (rc : ReqControl)
    → rc.last_seq_id < 2 ^ 15
    → let id = next_seq_id rc.last_seq_id in
      let d = reply c context id answer in
      dispatch app has_callback client_id id answer (with_request rc (some c) context t)
      ≡ (d ∷ [], app d (record rc { last_seq_id = id }))
unfolding remove_request
reply_to_request app has_callback client_id c context t answer rc h =
    let id = next_seq_id rc.last_seq_id in
    let b = next_seq_id_bounds rc.last_seq_id h in
    let r = new_request id t (some c) context in
    let d = reply c context id answer in
    dispatch_found app has_callback client_id id c answer (with_request rc (some c) context t) r b.0
      b.1 (find_pending_head r rc.pending) refl
    ∙ ap (λ p. (d ∷ [], app d (record rc { last_seq_id = id; pending = p })))
        (remove_pending_head r rc.pending)

-- The message that af_ipc_send makes of a request reaches the receive callback of the server with a
-- number that names the client that it came from; the message made of an answer with this number
-- reaches, at that client, the callback that was given with the request, with its context, and the
-- request is no longer pending. Both bodies have from 1 to 4088 bytes.
pub request_answered :
    (server client : App) (has_callback : Bool) (client_id own c context t : ℕ)
    (question answer : Bytes) (srv rc : ReqControl)
    → client_id < 2 ^ 16
    → rc.last_seq_id < 2 ^ 15
    → IsPayload question
    → IsPayload answer
    → let id = next_seq_id rc.last_seq_id in
      let n = client_id * 2 ^ 16 + id in
      let asked = incoming n question in
      let told = reply c context id answer in
      (handle_receive_message server true client_id
          (wire (whole (mark_new_request id) question))
          srv
        ≡ some (asked ∷ [], server asked srv))
      × (get_client_id_from_seq_num n ≡ client_id)
      × (handle_receive_message client has_callback own
            (wire (whole n answer))
            (with_request rc (some c) context t)
          ≡ some (told ∷ [], client told (record rc { last_seq_id = id })))
request_answered server client has_callback client_id own c context t question answer srv rc hc h hq
      ha =
    let id = next_seq_id rc.last_seq_id in
    let n = client_id * 2 ^ 16 + id in
    let b = next_seq_id_bounds rc.last_seq_id h in
    (
      receive_whole server true client_id (mark_new_request id) question srv _ (incoming n question)
          (omega (arith, mark_new_request_lem id b.1, b.1)) hq
          (dispatch-request server client_id id question srv hc b.0 b.1),
      client_id_lem n ∙ omega (arith, b.1),
      receive_whole client has_callback own n answer (with_request rc (some c) context t) _
          (reply c context id answer) (omega (arith, b.1)) ha
          (ap (λ s. dispatch client has_callback own s answer (with_request rc (some c) context t))
              (get_seq_id_lem n ∙ omega (arith, b.1))
            ∙ reply_to_request client has_callback own c context t answer rc h),
    )
