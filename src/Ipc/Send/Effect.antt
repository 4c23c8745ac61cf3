-- ===== src/Ipc/Send/Effect.antt =====
-- What af_ipc_send of pkg/src/af_ipc_common.c does to the pending requests, and what it sends.
use af_ipc.Common.{
  ℕ, zero, suc, ◌≡◌, refl, Option, none, some, ◌∷◌, ℤ, pos, negsuc, ◌⊎◌, inl, inr, if_both,
}
use af_ipc.Rpc.Memory.{Bytes}
use af_ipc.Ipc.SeqNum.{mark_new_request}
use af_ipc.Ipc.Requests.{
  Errno, Request, ReqControl, find_unused_request, gen_seq_id, next_seq_id, remove_request,
}
use af_ipc.Ipc.Requests.Pending.{remove_pending_head}
use af_ipc.Ipc.Send.{
  Environment, SendResult, send_error, sent_bytes, Message, Sent, register, start_timer, clean_up,
  transmit, send_request, send, make_message, new_request, too_long, send_in_time,
}

-- The state with the new request.
abbrev pub with_request : ReqControl → Option ℕ → ℕ → ℕ → ReqControl
with_request rc callback context t =
    let id = next_seq_id rc.last_seq_id in
    record rc { last_seq_id = id; pending = new_request id t callback context ∷ rc.pending }

-- The message and the pending requests that a successful call leaves.
abbrev pub expected_message : ReqControl → ℕ → Bytes → ℤ → ℤ → Message
expected_message rc seq_num buf size (pos (suc t)) =
    make_message (mark_new_request (next_seq_id rc.last_seq_id)) buf size
expected_message rc seq_num buf size (pos zero) = make_message seq_num buf size
expected_message rc seq_num buf size (negsuc k) = make_message seq_num buf size

abbrev pub expected_control : ReqControl → Option ℕ → ℕ → ℤ → ReqControl
expected_control rc callback context (pos (suc t)) = with_request rc callback context (suc t)
expected_control rc callback context (pos zero) = rc
expected_control rc callback context (negsuc k) = rc

-- sendmsg took bytes of the message, as many as recorded, and the request is pending; or the call
-- fails, nothing is sent, and the pending requests are as before.
abbrev pub Settled :
    (Message → SendResult)
    → ReqControl
    → ReqControl
    → Message
    → ℕ
    → Option Errno
    → Option ReqControl
    → Option Message
    → Type 0
Settled sendmsg rc rc' m n none control sent =
    (control ≡ some rc') × (sent ≡ some m) × (sendmsg m ≡ sent_bytes n)
Settled sendmsg rc rc' m n (some e) none sent = ⊥
Settled sendmsg rc rc' m n (some e) (some left) sent =
    (left.pending ≡ rc.pending)
    × ((left.last_seq_id ≡ rc.last_seq_id) ⊎ (left.last_seq_id ≡ rc'.last_seq_id))
    × (left.mutex_created ≡ rc.mutex_created)
    × (left.pool ≡ rc.pool)
    × (sent ≡ none)
    × (n ≡ 0)

-- The same of what the function leaves.
abbrev pub IsSettled : (Message → SendResult) → ReqControl → ReqControl → Message → Sent → Type 0
IsSettled sendmsg rc rc' m s = Settled sendmsg rc rc' m s.taken s.error s.control s.sent

transmit_plain :
    (sendmsg : Message → SendResult) (answer : SendResult) (rc : ReqControl) (m : Message)
    → sendmsg m ≡ answer
    → IsSettled sendmsg rc rc m (transmit answer (some rc) none m)
unfolding transmit clean_up
transmit_plain sendmsg (sent_bytes n) rc m h = (refl, refl, h)
transmit_plain sendmsg (send_error e) rc m h = (refl, inl refl, refl, refl, refl, refl)

-- The request in front goes again if the message cannot be sent.
transmit_request :
    (sendmsg : Message → SendResult) (answer : SendResult) (rc : ReqControl) (r : Request)
    (m : Message)
    → sendmsg m ≡ answer
    → let rc' = record rc { last_seq_id = r.seq_num; pending = r ∷ rc.pending } in
      IsSettled sendmsg rc rc' m (transmit answer (some rc') (some r.seq_num) m)
unfolding transmit clean_up remove_request
transmit_request sendmsg (sent_bytes n) rc r m h = (refl, refl, h)
transmit_request sendmsg (send_error e) rc r m h =
    (remove_pending_head r rc.pending, inr refl, refl, refl, refl, refl)

send_entered :
    (slot : Option Request) (timer : Option ℕ) (sendmsg : Message → SendResult) (rc : ReqControl)
    (buf : Bytes) (size : ℤ) (callback : Option ℕ) (context t : ℕ)
    → IsSettled sendmsg rc
        (with_request rc callback context t)
        (make_message (mark_new_request (next_seq_id rc.last_seq_id)) buf size)
        (send_request
          (record { slot = slot; timer = timer; sendmsg = sendmsg })
          (some rc)
          buf
          size
          callback
          context
          t)
unfolding send_request register find_unused_request gen_seq_id start_timer remove_request
send_entered none timer sendmsg rc buf size callback context t =
    (refl, inl refl, refl, refl, refl, refl)
send_entered (some old) none sendmsg rc buf size callback context t =
    let id = next_seq_id rc.last_seq_id in
    transmit_request sendmsg (sendmsg (make_message (mark_new_request id) buf size)) rc
      (new_request id t callback context) (make_message (mark_new_request id) buf size) refl
send_entered (some old) (some e) sendmsg rc buf size callback context t = (
  remove_pending_head (new_request (next_seq_id rc.last_seq_id) t callback context) rc.pending,
  inr refl,
  refl,
  refl,
  refl,
  refl,
)

-- With a database of requests, if af_ipc_send returns 0, sendmsg took bytes of the message, the one of
-- a response, or of a new request with the next sequence ID, and exactly that request was added to
-- the pending ones; the number of bytes is whatever sendmsg returned, also if the message has more.
-- If it returns an error, for whatever reason, nothing was sent and the pending requests are those
-- from before: at most one sequence ID is used up.
pub send-IsSettled :
    (env : Environment) (rc : ReqControl) (seq_num : ℕ) (buf : Bytes) (size : ℤ)
    (callback : Option ℕ) (context : ℕ) (timeout : ℤ)
    → IsSettled env.sendmsg rc
        (expected_control rc callback context timeout)
        (expected_message rc seq_num buf size timeout)
        (send env (some rc) seq_num buf size callback context timeout)
unfolding send send_in_time
send-IsSettled env rc seq_num buf size callback context (pos (suc t)) =
    if_both
      (IsSettled env.sendmsg rc (with_request rc callback context (suc t))
        (make_message (mark_new_request (next_seq_id rc.last_seq_id)) buf size))
      (too_long size) _ _ (refl, inl refl, refl, refl, refl, refl)
      (send_entered env.slot env.timer env.sendmsg rc buf size callback context (suc t))
send-IsSettled env rc seq_num buf size callback context (pos zero) =
    if_both (IsSettled env.sendmsg rc rc (make_message seq_num buf size)) (too_long size) _ _
      (refl, inl refl, refl, refl, refl, refl)
      (transmit_plain env.sendmsg (env.sendmsg (make_message seq_num buf size)) rc _ refl)
send-IsSettled env rc seq_num buf size callback context (negsuc k) =
    if_both (IsSettled env.sendmsg rc rc (make_message seq_num buf size)) (too_long size) _ _
      (refl, inl refl, refl, refl, refl, refl)
      (transmit_plain env.sendmsg (env.sendmsg (make_message seq_num buf size)) rc _ refl)
