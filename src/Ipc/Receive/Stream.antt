-- ===== src/Ipc/Receive/Stream.antt =====
-- The framing of pkg/src/af_ipc_common.c: what af_ipc_send puts on the stream is what
-- af_ipc_handle_receive_message takes from it.
use af_ipc.Common.{
  ℕ, zero, suc, ◌+◌, ◌-◌, ◌/◌, ◌%◌, ◌^◌, ◌≤◌, ◌<◌, ◌≡◌, refl, ap, sym, ◌∙◌, Bool, some, List, [],
  ◌∷◌, ◌++◌, append_assoc, arith, length, take, drop, length-append, take-append, drop-append,
  drop_past, lt→ltb, ge→ltb, gt→leb,
}
use mathlib.Core.Option
use af_ipc.Rpc.Memory.{Bytes}
use af_ipc.Ipc.SeqNum.{get_seq_id}
use af_ipc.Ipc.Requests.{ReqControl}
use af_ipc.Ipc.Send.{msghdr_len, Message}
use af_ipc.Ipc.Receive.{
  Delivery, App, header_seq_num, header_len, from_le, dispatch, after, receive_from,
  handle_receive_message,
}

-- A little-endian number of `n` bytes.
abbrev pub le_bytes : ℕ → ℕ → Bytes
le_bytes zero x = []
le_bytes (suc n) x = x % 256 ∷ le_bytes n (x / 256)

-- The bytes of a message: its header, with two bytes of padding, and its body.
abbrev pub wire : Message → Bytes
wire m = le_bytes 4 m.seq_num ++ le_bytes 2 m.len ++ 0 ∷ 0 ∷ m.body

-- A message whose length is that of its header and body, and whose body is not empty.
pub record IsFramed (m : Message) : Type 0 where
  pub seq_num_word : m.seq_num < 2 ^ 32
  pub not_empty : 0 < length m.body
  pub exact : m.len ≡ msghdr_len + length m.body
  pub short : m.len < 2 ^ 16

abbrev pub AreFramed : List Message → Type 0
AreFramed [] = Unit {0}
AreFramed (m ∷ ms) = IsFramed m × AreFramed ms

abbrev pub stream : List Message → Bytes
stream [] = []
stream (m ∷ ms) = wire m ++ stream ms

-- The messages one by one.
abbrev pub dispatch_all : App → Bool → ℕ → List Message → ReqControl → List Delivery × ReqControl
dispatch_all app has_callback client_id [] rc = ([], rc)
dispatch_all app has_callback client_id (m ∷ ms) rc =
    let (ds, rc') = dispatch app has_callback client_id (get_seq_id m.seq_num) m.body rc in
    after ds (dispatch_all app has_callback client_id ms rc')

length-wire : (m : Message) → length (wire m) ≡ msghdr_len + length m.body
length-wire m = omega arith

from_le-le_bytes4 : (x : ℕ) → x < 2 ^ 32 → from_le (le_bytes 4 x) ≡ x
from_le-le_bytes4 x h = omega arith

from_le-le_bytes2 : (x : ℕ) → x < 2 ^ 16 → from_le (le_bytes 2 x) ≡ x
from_le-le_bytes2 x h = omega arith

-- Reading at the place `p` where the message begins.
module _ (front back : Bytes) (m : Message) (p : ℕ) (at : p ≡ length front) (h : IsFramed m) where
  seq_num-wire : header_seq_num (front ++ (wire m ++ back)) p ≡ m.seq_num
  seq_num-wire =
      ap (λ xs. from_le (take 4 xs)) (drop-append front (wire m ++ back) p at)
      ∙ from_le-le_bytes4 m.seq_num h.seq_num_word

  len-wire : header_len (front ++ (wire m ++ back)) p ≡ m.len
  len-wire =
      ap (λ xs. from_le (take 2 xs)) (drop_past front (wire m ++ back) (p + 4) 4 (omega arith))
      ∙ from_le-le_bytes2 m.len h.short

  body-wire : take (m.len - msghdr_len) (drop (p + msghdr_len) (front ++ (wire m ++ back))) ≡ m.body
  body-wire =
      ap (take (m.len - msghdr_len)) (drop_past front (wire m ++ back) (p + 8) 8 (omega arith))
      ∙ take-append m.body back (m.len - 8) (omega (arith, h.exact))

  length-buf : length (front ++ (wire m ++ back)) ≡ p + m.len + length back
  length-buf = omega (
    arith,
    length-append front (wire m ++ back),
    length-append (wire m) back,
    length-wire m,
    h.exact,
  )

  -- One round takes the message.
  receive_one :
      (fuel : ℕ) (app : App) (has_callback : Bool) (client_id : ℕ) (rc : ReqControl)
      → let buf = front ++ (wire m ++ back) in
        let r = dispatch app has_callback client_id (get_seq_id m.seq_num) m.body rc in
        receive_from (suc fuel) app has_callback client_id buf p rc
        ≡ Option.map (after r.0) (receive_from fuel app has_callback client_id buf (p + m.len) r.1)
  unfolding receive_from
  receive_one fuel app has_callback client_id rc =
      let buf = front ++ (wire m ++ back) in
      rw
        (
          len-wire,
          seq_num-wire,
          body-wire,
          lt→ltb p (length buf) (omega (arith, length-buf, h.exact)),
          gt→leb (length buf) (p + 8) (omega (arith, length-buf, h.exact, h.not_empty)),
          ge→ltb (length buf) (p + m.len) (omega (arith, length-buf)),
          ge→ltb m.len 8 (omega (arith, h.exact)),
        )
        refl

receive-all :
    (app : App) (has_callback : Bool) (client_id : ℕ) (ms : List Message) (rc : ReqControl)
    (front : Bytes) (p fuel : ℕ)
    → p ≡ length front
    → AreFramed ms
    → length ms < fuel
    → receive_from fuel app has_callback client_id (front ++ stream ms) p rc
      ≡ some (dispatch_all app has_callback client_id ms rc)
unfolding receive_from
receive-all app has_callback client_id ms rc front p zero at h enough = absurd (omega arith)
receive-all app has_callback client_id [] rc front p (suc fuel) at h enough =
    rw (ge→ltb p (length (front ++ [])) (omega (arith, length-append front []))) refl
receive-all app has_callback client_id (m ∷ ms) rc front p (suc fuel) at h enough =
    let r = dispatch app has_callback client_id (get_seq_id m.seq_num) m.body rc in
    receive_one front (stream ms) m p at h.0 fuel app has_callback client_id rc
    ∙ ap
        (λ buf.
          Option.map (after r.0) (receive_from fuel app has_callback client_id buf (p + m.len) r.1))
        (sym (append_assoc front (wire m) (stream ms)))
    ∙ ap (Option.map (after r.0)) (
        receive-all app has_callback client_id ms r.1 (front ++ wire m) (p + m.len) fuel
          (omega (arith, length-append front (wire m), length-wire m, h.0.exact)) h.1 (omega arith))

length-stream : (ms : List Message) → length ms ≤ length (stream ms)
length-stream [] = omega arith
length-stream (m ∷ ms) =
    omega (arith, length-append (wire m) (stream ms), length-wire m, length-stream ms)

-- When messages with bodies that are not empty, each in the bytes that af_ipc_send puts on the
-- stream, are received in one packet, af_ipc_handle_receive_message handles exactly these messages,
-- each with its own sequence ID and body, in their order, the state of one passed on to the next.
pub receive-stream :
    (app : App) (has_callback : Bool) (client_id : ℕ) (ms : List Message) (rc : ReqControl)
    → AreFramed ms
    → handle_receive_message app has_callback client_id (stream ms) rc
      ≡ some (dispatch_all app has_callback client_id ms rc)
unfolding handle_receive_message
receive-stream app has_callback client_id ms rc h =
    receive-all app has_callback client_id ms rc [] 0 (length (stream ms) + 1) refl h
      (omega (arith, length-stream ms))
