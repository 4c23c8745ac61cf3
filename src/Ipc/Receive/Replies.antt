-- ===== src/Ipc/Receive/Replies.antt =====
-- Requests and their replies in pkg/src/af_ipc_common.c.
use af_ipc.Common.{
  ℕ, ◌+◌, ◌*◌, ◌^◌, ◌<◌, ◌≡◌, ◌≢◌, refl, ap, ◌∙◌, Bool, true, none, some, [], ◌∷◌, arith, ◌==◌,
  ne→==,
}
use af_ipc.Rpc.Memory.{Bytes}
use af_ipc.Ipc.SeqNum.{get_seq_id, seqnum_is_new_request, mark_new_request}
use af_ipc.Ipc.SeqNum.Masks.{
  get_seq_id_lem, is_new_request_of_lt, is_new_request_of_ge, mark_new_request_lem, tagged,
}
use af_ipc.Ipc.Requests.{Request, ReqControl, remove_request, find_pending}
use af_ipc.Ipc.Requests.Pending.{IsValid, find-remove_self, find-remove_ne}
use af_ipc.Ipc.Send.Valid.{remove-IsValid}
use af_ipc.Ipc.Receive.{incoming, reply, App, answer, take_reply, take_incoming, dispatch}

-- The application leaves the requests alone.
abbrev pub quiet : App
quiet d rc = rc

dispatch-reply :
    (app : App) (has_callback : Bool) (client_id s : ℕ) (payload : Bytes) (rc : ReqControl)
    → 0 < s
    → s < 2 ^ 15
    → dispatch app has_callback client_id s payload rc ≡ take_reply app s payload rc
unfolding dispatch
dispatch-reply app has_callback client_id s payload rc h k =
    rw (ne→== s 0 (omega arith), is_new_request_of_lt s k) refl

dispatch_missing :
    (app : App) (has_callback : Bool) (client_id s : ℕ) (payload : Bytes) (rc : ReqControl)
    → 0 < s
    → s < 2 ^ 15
    → find_pending s rc.pending ≡ none
    → dispatch app has_callback client_id s payload rc ≡ ([], rc)
unfolding take_reply
dispatch_missing app has_callback client_id s payload rc h k missing =
    dispatch-reply app has_callback client_id s payload rc h k ∙ rw (take_reply, missing) refl

pub dispatch_found :
    (app : App) (has_callback : Bool) (client_id s c : ℕ) (payload : Bytes) (rc : ReqControl)
    (r : Request)
    → 0 < s
    → s < 2 ^ 15
    → find_pending s rc.pending ≡ some r
    → r.callback ≡ some c
    → let d = reply c r.context s payload in
      dispatch app has_callback client_id s payload rc ≡ (d ∷ [], app d (remove_request rc s))
unfolding take_reply answer
dispatch_found app has_callback client_id s c payload rc r h k found cb =
    dispatch-reply app has_callback client_id s payload rc h k
    ∙ rw (take_reply, found, answer, cb) refl

find-remove_request :
    (rc : ReqControl) (s : ℕ) → IsValid rc → find_pending s (remove_request rc s).pending ≡ none
unfolding remove_request
find-remove_request rc s v = find-remove_self s rc.pending v.distinct

find-remove_request_ne :
    (rc : ReqControl) (s t : ℕ)
    → s ≢ t
    → find_pending t (remove_request rc s).pending ≡ find_pending t rc.pending
unfolding remove_request
find-remove_request_ne rc s t h = find-remove_ne s t rc.pending h

-- From a state that satisfies the invariant, a reply with the sequence ID of a pending request
-- that has a callback goes to that callback with its context, after the request was taken off: in
-- the state that the callback starts from, the same reply would be dropped, every other request is
-- still pending, and the invariant holds.
pub reply_found :
    (app : App) (has_callback : Bool) (client_id s other c : ℕ) (payload : Bytes) (rc : ReqControl)
    (r : Request)
    → IsValid rc
    → 0 < s
    → s < 2 ^ 15
    → s ≢ other
    → find_pending s rc.pending ≡ some r
    → r.callback ≡ some c
    → let d = reply c r.context s payload in
      let left = remove_request rc s in
      (dispatch app has_callback client_id s payload rc ≡ (d ∷ [], app d left))
      × (dispatch app has_callback client_id s payload left ≡ ([], left))
      × (find_pending other left.pending ≡ find_pending other rc.pending)
      × IsValid left
reply_found app has_callback client_id s other c payload rc r v h k ne found cb = (
  dispatch_found app has_callback client_id s c payload rc r h k found cb,
  dispatch_missing app has_callback client_id s payload (remove_request rc s) h k
      (find-remove_request rc s v),
  find-remove_request_ne rc s other ne,
  remove-IsValid rc s v,
)

marked_id : (s : ℕ) → s < 2 ^ 15 → get_seq_id (mark_new_request s) ≡ s + 2 ^ 15
marked_id s h = omega (arith, get_seq_id_lem (mark_new_request s), mark_new_request_lem s h)

pub dispatch-request :
    (app : App) (client_id s : ℕ) (payload : Bytes) (rc : ReqControl)
    → client_id < 2 ^ 16
    → 0 < s
    → s < 2 ^ 15
    → let d = incoming (client_id * 2 ^ 16 + s) payload in
      dispatch app true client_id (get_seq_id (mark_new_request s)) payload rc ≡ (d ∷ [], app d rc)
unfolding dispatch take_incoming
dispatch-request app client_id s payload rc hc h k =
    let e = marked_id s k in
    rw
      (
        ap (λ n. n == 0) e ∙ ne→== (s + 2 ^ 15) 0 (omega arith),
        ap seqnum_is_new_request e ∙ is_new_request_of_ge (s + 2 ^ 15) (omega arith) (omega arith),
        tagged client_id s hc k,
      )
      refl
