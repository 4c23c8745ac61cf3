-- ===== src/Ipc/Receive/Total.antt =====
-- af_ipc_handle_receive_message of pkg/src/af_ipc_common.c on arbitrary bytes.
use af_ipc.Common.{
  ℕ, zero, suc, ◌+◌, ◌-◌, ◌^◌, ◌≤◌, ◌<◌, ◌≡◌, refl, Bool, ◌||◌, Option, none, some, List, arith,
  inl, inr, Bool-cases, or_false, length, take, drop, length-take, length-drop, ltb, leb, ltb→ge,
}
use mathlib.Core.Option
use af_ipc.Rpc.Memory.{Bytes}
use af_ipc.Ipc.SeqNum.{get_seq_id}
use af_ipc.Ipc.SeqNum.Masks.{get_seq_id_lem}
use af_ipc.Ipc.Requests.{ReqControl}
use af_ipc.Ipc.Send.{msghdr_len}
use af_ipc.Ipc.Receive.{
  Delivery, App, header_seq_num, header_len, after, receive_from, handle_receive_message,
}
use af_ipc.Ipc.Receive.Deliveries.{
  AreDeliveries, total_size, total_size-append, append-AreDeliveries, AreWithin, dispatch-AreWithin,
}

-- The loop returns what is within the rest of the bytes.
abbrev IsSafe : ℕ → ℕ → Option (List Delivery × ReqControl) → Type 0
IsSafe client_id size none = ⊥
IsSafe client_id size (some r) = AreWithin client_id size r.0

after-IsSafe :
    (client_id a b : ℕ) (ds : List Delivery) (r : Option (List Delivery × ReqControl))
    → AreWithin client_id a ds
    → IsSafe client_id b r
    → IsSafe client_id (a + b) (Option.map (after ds) r)
after-IsSafe client_id a b ds none h k = k
after-IsSafe client_id a b ds (some r) h k = (
  append-AreDeliveries client_id ds r.0 h.0 k.0,
  omega (arith, total_size-append ds r.0, h.1, k.1),
)

get_seq_id_lt : (n : ℕ) → get_seq_id n < 2 ^ 16
get_seq_id_lt n = omega (arith, get_seq_id_lem n)

result :
    (client_id size : ℕ) (o : Option (List Delivery × ReqControl))
    → IsSafe client_id size o
    → (r : List Delivery × ReqControl) × (o ≡ some r)
      × AreDeliveries client_id r.0
      × (total_size r.0 ≤ size)
result client_id size none h = absurd h
result client_id size (some r) h = (r, refl, h.0, h.1)

length_payload :
    (buf : Bytes) (p m : ℕ)
    → p + m ≤ length buf
    → 8 ≤ m
    → 8 + length (take (m - msghdr_len) (drop (p + msghdr_len) buf)) ≡ m
length_payload buf p m h k =
    omega (arith, length-take (m - 8) (drop (p + 8) buf), length-drop (p + 8) buf)

weaken :
    (client_id a b : ℕ) (r : Option (List Delivery × ReqControl))
    → a ≤ b
    → IsSafe client_id a r
    → IsSafe client_id b r
weaken client_id a b none h k = k
weaken client_id a b (some r) h k = (k.0, omega (arith, k.1))

round-IsSafe :
    (client_id p m : ℕ) (buf : Bytes) (ds : List Delivery)
    (rest : Option (List Delivery × ReqControl))
    → p + m ≤ length buf
    → 8 ≤ m
    → AreWithin client_id (8 + length (take (m - msghdr_len) (drop (p + msghdr_len) buf))) ds
    → IsSafe client_id (length buf - (p + m)) rest
    → IsSafe client_id (length buf - p) (Option.map (after ds) rest)
round-IsSafe client_id p m buf ds rest h k d r =
    let l = length_payload buf p m h k in
    weaken client_id (m + (length buf - (p + m))) _ (Option.map (after ds) rest) (omega arith)
      (after-IsSafe client_id m _ ds rest (d.0, omega (arith, d.1, l)) r)

receive_from-IsSafe :
    (fuel : ℕ) (app : App) (has_callback : Bool) (client_id : ℕ) (buf : Bytes) (p : ℕ)
    (rc : ReqControl)
    → client_id < 2 ^ 16
    → p ≤ length buf
    → length buf < fuel + p
    → IsSafe client_id (length buf - p) (receive_from fuel app has_callback client_id buf p rc)
unfolding receive_from
receive_from-IsSafe zero app has_callback client_id buf p rc hc hp h = absurd (omega arith)
receive_from-IsSafe (suc fuel) app has_callback client_id buf p rc hc hp h =
    elim (Bool-cases (ltb p (length buf))) [
      | inr done ↦ rw done (tt, omega arith)
      | inl more ↦ elim (Bool-cases (leb (length buf) (p + 8))) [
        | inl short ↦ rw (more, short) (tt, omega arith)
        | inr header ↦
            elim (Bool-cases
              (ltb (length buf) (p + header_len buf p) || ltb (header_len buf p) 8)) [
                | inl bad ↦ rw (more, header, bad) (tt, omega arith)
                | inr good ↦
                    let m = header_len buf p in
                    let s = get_seq_id (header_seq_num buf p) in
                    let payload = take (m - msghdr_len) (drop (p + msghdr_len) buf) in
                    let c = or_false (ltb (length buf) (p + m)) (ltb m 8) good in
                    let inside = ltb→ge (length buf) (p + m) c.0 in
                    let long = ltb→ge m 8 c.1 in
                    rw (more, header, good)
                      (round-IsSafe client_id p m buf _ _ inside long
                        (dispatch-AreWithin app has_callback client_id s payload rc hc
                          (get_seq_id_lt (header_seq_num buf p)))
                        (receive_from-IsSafe fuel app has_callback client_id buf (p + m) _ hc inside
                          (omega (arith, long, h))))
              ]
      ]
    ]

-- On any bytes whatever the loop ends, within one more round than there are bytes. Each message that
-- the receive callback gets bears the client ID of the connection (a peer cannot pass for another
-- one) and has bit 15 clear, each reply bears a sequence ID from 1 to 2^15 - 1, and the messages
-- delivered, with their headers, are no more than the bytes received.
pub handle_receive-total :
    (app : App) (has_callback : Bool) (client_id : ℕ) (buf : Bytes) (rc : ReqControl)
    → client_id < 2 ^ 16
    → (r : List Delivery × ReqControl) × (handle_receive_message app has_callback client_id buf rc
        ≡ some r)
      × AreDeliveries client_id r.0
      × (total_size r.0 ≤ length buf)
unfolding handle_receive_message
handle_receive-total app has_callback client_id buf rc hc =
    result client_id (length buf) (handle_receive_message app has_callback client_id buf rc) (
      weaken client_id (length buf - 0) (length buf) _ (omega arith) (
        receive_from-IsSafe (length buf + 1) app has_callback client_id buf 0 rc hc (omega arith)
          (omega arith)))
