-- ===== src/Ipc/Send/Length.antt =====
-- The lengths in what af_ipc_send of pkg/src/af_ipc_common.c sends.
use af_ipc.Common.{
  ℕ, zero, suc, ◌+◌, ◌%◌, ◌^◌, ◌≤◌, ◌<◌, ◌≡◌, sym, ◌∙◌, subst, ◌-◌, Option, none, some, arith, ℤ,
  pos, negsuc, inl, inr, Bool-cases, false, leb, lt→ltb, ge→ltb, ltb→ge, leb→le, leb→gt,
}
use af_ipc.Rpc.Memory.{Bytes}
use af_ipc.Ipc.SeqNum.{mark_new_request}
use af_ipc.Ipc.Requests.{Request, ReqControl, find_unused_request, gen_seq_id, next_seq_id}
use af_ipc.Ipc.Send.{
  Environment, SendResult, send_error, sent_bytes, Message, register, start_timer, transmit,
  send_request, send_in_time, send, make_message, too_long,
}

-- What is said of the message, if there is one.
abbrev IsSized : ℕ → Option Message → Type 0
IsSized size none = Unit {0}
IsSized size (some m) = (m.len ≡ size + 8) × (m.body_len ≡ size) × (size + 8 ≤ 4096)

word-size : (size : ℕ) → size < 2 ^ 31 → size % 2 ^ 64 ≡ size
word-size size h = omega arith

make_message-IsSized :
    (seq_num : ℕ) (buf : Bytes) (size : ℕ)
    → size + 8 ≤ 4096
    → IsSized size (some (make_message seq_num buf (pos size)))
make_message-IsSized seq_num buf size h = (omega arith, omega arith, h)

transmit-IsSized :
    (answer : SendResult) (control : Option ReqControl) (req : Option ℕ) (size : ℕ) (m : Message)
    → IsSized size (some m)
    → IsSized size (transmit answer control req m).sent
unfolding transmit
transmit-IsSized (sent_bytes n) control req size m h = h
transmit-IsSized (send_error e) control req size m h = tt

send_request-IsSized :
    (slot : Option Request) (timer : Option ℕ) (sendmsg : Message → SendResult)
    (control : Option ReqControl) (buf : Bytes) (size : ℕ) (callback : Option ℕ) (context t : ℕ)
    → size + 8 ≤ 4096
    → IsSized size
        (send_request
          (record { slot = slot; timer = timer; sendmsg = sendmsg })
          control
          buf
          (pos size)
          callback
          context
          t).sent
unfolding send_request register start_timer find_unused_request gen_seq_id
send_request-IsSized slot timer sendmsg none buf size callback context t h = tt
send_request-IsSized none timer sendmsg (some rc) buf size callback context t h = tt
send_request-IsSized (some r) (some e) sendmsg (some rc) buf size callback context t h = tt
send_request-IsSized (some r) none sendmsg (some rc) buf size callback context t h =
    transmit-IsSized (sendmsg _) (some _) (some _) size _
      (make_message-IsSized (mark_new_request (next_seq_id rc.last_seq_id)) buf size h)

fits : (size : ℕ) → size < 2 ^ 31 → too_long (pos size) ≡ false → size + 8 ≤ 4096
fits size small h = omega (arith, ltb→ge 4096 ((size % 2 ^ 64 + 8) % 2 ^ 64) h)

in_time :
    (env : Environment) (control : Option ReqControl) (seq_num : ℕ) (buf : Bytes) (size : ℕ)
    (callback : Option ℕ) (context : ℕ) (timeout : ℤ)
    → size + 8 ≤ 4096
    → IsSized size (send_in_time env control seq_num buf (pos size) callback context timeout).sent
unfolding send_in_time
in_time env control seq_num buf size callback context (pos (suc t)) h =
    send_request-IsSized env.slot env.timer env.sendmsg control buf size callback context (suc t) h
in_time env control seq_num buf size callback context (pos zero) h =
    transmit-IsSized (env.sendmsg _) control none size _ (make_message-IsSized seq_num buf size h)
in_time env control seq_num buf size callback context (negsuc k) h =
    transmit-IsSized (env.sendmsg _) control none size _ (make_message-IsSized seq_num buf size h)

send-IsSized :
    (env : Environment) (control : Option ReqControl) (seq_num : ℕ) (buf : Bytes) (size : ℕ)
    (callback : Option ℕ) (context : ℕ) (timeout : ℤ)
    → size < 2 ^ 31
    → IsSized size (send env control seq_num buf (pos size) callback context timeout).sent
unfolding send
send-IsSized env control seq_num buf size callback context timeout small =
    elim (Bool-cases (too_long (pos size))) [
      | inl long ↦ rw long tt
      | inr short ↦
          rw short
            (in_time env control seq_num buf size callback context timeout (fits size small short))
    ]

-- Whatever af_ipc_send sends for a size of 31 bits that is not negative, its length in the header,
-- 16 bits wide, is exactly the size and the 8 bytes of the header, the second part of the message
-- has as many bytes as asked for, and the whole is at most AF_IPC_MAX_MSGLEN.
pub send-length :
    (env : Environment) (control : Option ReqControl) (seq_num : ℕ) (buf : Bytes) (size : ℕ)
    (callback : Option ℕ) (context : ℕ) (timeout : ℤ) (m : Message)
    → size < 2 ^ 31
    → (send env control seq_num buf (pos size) callback context timeout).sent ≡ some m
    → (m.len ≡ size + 8) × (m.body_len ≡ size) × (m.len ≤ 4096)
send-length env control seq_num buf size callback context timeout m small e =
    let h =
      subst (IsSized size) e
        (send-IsSized env control seq_num buf size callback context timeout small) in
    (h.0, h.1, omega (arith, h.0, h.2))

-- A size below 0 is refused unless it is -8 or more: then, converted to size_t, it wraps around to
-- a length within AF_IPC_MAX_MSGLEN when the header is added.
pub negative_too_long : (k : ℕ) → k < 2 ^ 31 → too_long (negsuc k) ≡ leb 8 k
negative_too_long k h = elim (Bool-cases (leb 8 k)) [
  | inl big ↦
      lt→ltb 4096 ((2 ^ 64 - 1 - k % 2 ^ 64 + 8) % 2 ^ 64) (omega (arith, leb→le 8 k big)) ∙ sym big
  | inr small ↦
      ge→ltb 4096 ((2 ^ 64 - 1 - k % 2 ^ 64 + 8) % 2 ^ 64) (omega (arith, leb→gt 8 k small))
      ∙ sym small
]
