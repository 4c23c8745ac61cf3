-- ===== src/Ipc/Send.antt =====
-- af_ipc_send of pkg/src/af_ipc_common.c. The calls that it makes out of the repository
-- (af_mempool_alloc, evtimer_new, sendmsg) are answered by an `Environment`.
pub mod Effect
pub mod Length
pub mod Valid
use af_ipc.Common.{
  ℕ, zero, suc, ◌+◌, ◌*◌, ◌/◌, ◌%◌, ◌-◌, ◌^◌, Bool, true, false, Option, none, some, List, [], ◌∷◌,
  ◌++◌, ltb, ◌⊎◌, inl, inr, if◌then◌else◌, ℤ, pos, negsuc, to_word, take,
}
use af_ipc.Rpc.Memory.{Bytes}
use af_ipc.Ipc.SeqNum.{mark_new_request}
use af_ipc.Ipc.Requests.{
  Errno, einval, enomem, system, Request, ReqControl, find_unused_request, gen_seq_id,
  remove_request,
}

-- sizeof(af_ipc_msghdr_t): six bytes and two of padding.
abbrev pub msghdr_len : ℕ
msghdr_len = 8

abbrev pub max_msglen : ℕ
max_msglen = 4096

-- The header, and the second part of the vector: its length as size_t, and the bytes.
pub record Message : Type 0 where
  pub seq_num : ℕ
  pub len : ℕ
  pub body_len : ℕ
  pub body : Bytes

-- What sendmsg returns: -1 with errno, or the number of bytes that it took, which may be fewer than
-- the message has.
pub data SendResult : Type 0 where
  send_error : ℕ → SendResult
  sent_bytes : ℕ → SendResult

-- `slot` is what af_mempool_alloc returns, `timer` the errno if evtimer_new fails, and `sendmsg` what
-- sendmsg returns.
pub record Environment : Type 0 where
  pub slot : Option Request
  pub timer : Option ℕ
  pub sendmsg : Message → SendResult

-- What the function returns (0, or -1 with errno), the request control, the message if sendmsg took
-- bytes of it, and how many it took.
pub record Sent : Type 0 where
  pub error : Option Errno
  pub control : Option ReqControl
  pub sent : Option Message
  pub taken : ℕ

-- The head of the pending requests, filled in.
abbrev pub fill : ReqControl → Request → ReqControl
fill rc r = record rc { pending = elim rc.pending [ [] ↦ [] | old ∷ rest ↦ r ∷ rest ] }

abbrev pub new_request : ℕ → ℕ → Option ℕ → ℕ → Request
new_request seq_num timeout callback context = record {
  seq_num = seq_num;
  event = true;
  timeout_val = timeout;
  callback = callback;
  context = context;
}

-- The timer of the request with number `seq_num`, given the errno if evtimer_new fails.
unfoldable pub start_timer : Option ℕ → ℕ → ReqControl → (Errno ⊎ ℕ) × ReqControl
unfolding remove_request
start_timer none seq_num rc = (inr seq_num, rc)
start_timer (some e) seq_num rc = (inl (system e), remove_request rc seq_num)

-- A request is entered under the mutex: the errno or its number, and the state.
unfoldable pub register :
    Option Request → Option ℕ → ReqControl → Option ℕ → ℕ → ℕ → (Errno ⊎ ℕ) × ReqControl
unfolding find_unused_request gen_seq_id start_timer
register slot timer rc callback context timeout =
    let (found, rc1) = find_unused_request slot rc in
    let (seq_num, rc2) = gen_seq_id rc1 in
    if found
    then start_timer timer seq_num (fill rc2 (new_request seq_num timeout callback context))
    else (inl enomem, rc1)

-- The removal of a pending request whose message could not be sent.
unfoldable pub clean_up : Option ReqControl → Option ℕ → Option ReqControl
unfolding remove_request
clean_up control none = control
clean_up none (some seq_num) = none
clean_up (some rc) (some seq_num) = some (remove_request rc seq_num)

-- What follows from the answer of sendmsg: any count is a success.
unfoldable pub transmit : SendResult → Option ReqControl → Option ℕ → Message → Sent
unfolding clean_up
transmit (sent_bytes n) control req m = record {
  error = none;
  control = control;
  sent = some m;
  taken = n;
}
transmit (send_error e) control req m = record {
  error = some (system e);
  control = clean_up control req;
  sent = none;
  taken = 0;
}

abbrev pub failed : Errno → Option ReqControl → Sent
failed e control = record { error = some e; control = control; sent = none; taken = 0 }

-- txBufferSize is converted to size_t, and the length in the header to uint16_t.
abbrev pub make_message : ℕ → Bytes → ℤ → Message
make_message seq_num buf size = record {
  seq_num = seq_num;
  len = (to_word 64 size + msghdr_len) % 2 ^ 16;
  body_len = to_word 64 size;
  body = take (to_word 64 size) buf;
}

-- With a timeout above 0: a request.
unfoldable pub send_request : Environment → Option ReqControl → Bytes → ℤ → Option ℕ → ℕ → ℕ → Sent
unfolding register transmit
send_request env none buf size callback context timeout = failed einval none
send_request env (some rc) buf size callback context timeout =
    let (entered, rc') = register env.slot env.timer rc callback context timeout in
    elim entered [
      | inl e ↦ failed e (some rc')
      | inr seq_num ↦
          let m = make_message (mark_new_request seq_num) buf size in
          transmit (env.sendmsg m) (some rc') (some seq_num) m
    ]

-- A response or an unsolicited message.
abbrev pub send_plain : Environment → Option ReqControl → Message → Sent
unfolding transmit
send_plain env control m = transmit (env.sendmsg m) control none m

abbrev pub too_long : ℤ → Bool
too_long size = ltb max_msglen ((to_word 64 size + msghdr_len) % 2 ^ 64)

-- A number of milliseconds above 0 asks for a reply.
unfoldable pub send_in_time :
    Environment → Option ReqControl → ℕ → Bytes → ℤ → Option ℕ → ℕ → ℤ → Sent
unfolding send_request transmit
send_in_time env control seq_num buf size callback context (pos (suc t)) =
    send_request env control buf size callback context (suc t)
send_in_time env control seq_num buf size callback context (pos zero) =
    send_plain env control (make_message seq_num buf size)
send_in_time env control seq_num buf size callback context (negsuc k) =
    send_plain env control (make_message seq_num buf size)

unfoldable pub send : Environment → Option ReqControl → ℕ → Bytes → ℤ → Option ℕ → ℕ → ℤ → Sent
unfolding send_in_time
send env control seq_num buf size callback context timeout =
    if too_long size
    then failed einval control
    else send_in_time env control seq_num buf size callback context timeout
