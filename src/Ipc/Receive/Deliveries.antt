-- ===== src/Ipc/Receive/Deliveries.antt =====
-- What one message makes af_ipc_handle_receive_message of pkg/src/af_ipc_common.c deliver.
use af_ipc.Common.{
  ℕ, ◌+◌, ◌%◌, ◌^◌, ◌≤◌, ◌<◌, ◌≡◌, ◌∙◌, Bool, true, false, ◌||◌, List, [], ◌∷◌, ◌++◌, arith, inl,
  inr, Bool-cases, Option-cases, or_false, length, leb, ◌==◌, leb→le, leb→gt, ==→ne,
}
use af_ipc.Rpc.Memory.{Bytes}
use af_ipc.Ipc.SeqNum.{seqnum_is_new_request, tag_client, get_client_id_from_seq_num}
use af_ipc.Ipc.SeqNum.Masks.{is_new_request_of_ge, tag_client_lem, client_id_lem}
use af_ipc.Ipc.Requests.{Request, ReqControl, remove_request, find_pending}
use af_ipc.Ipc.Send.{msghdr_len}
use af_ipc.Ipc.Receive.{Delivery, incoming, reply, App, answer, take_reply, take_incoming, dispatch}

-- What a callback is told: a message for the receive callback bears the client ID of the connection
-- that it came in by, and has bit 15 clear; a reply has a sequence ID of one of our own requests.
abbrev pub IsDelivery : ℕ → Delivery → Type 0
IsDelivery client_id (incoming n payload) =
    (get_client_id_from_seq_num n ≡ client_id) × (n % 2 ^ 16 < 2 ^ 15)
IsDelivery client_id (reply c context n payload) = (0 < n) × (n < 2 ^ 15)

abbrev pub AreDeliveries : ℕ → List Delivery → Type 0
AreDeliveries client_id [] = Unit {0}
AreDeliveries client_id (d ∷ ds) = IsDelivery client_id d × AreDeliveries client_id ds

-- The bytes of the packet that the deliveries take up.
abbrev pub size_of : Delivery → ℕ
size_of (incoming n payload) = msghdr_len + length payload
size_of (reply c context n payload) = msghdr_len + length payload

abbrev pub total_size : List Delivery → ℕ
total_size [] = 0
total_size (d ∷ ds) = size_of d + total_size ds

pub total_size-append :
    (ds es : List Delivery) → total_size (ds ++ es) ≡ total_size ds + total_size es
total_size-append [] es = omega arith
total_size-append (d ∷ ds) es = omega (arith, total_size-append ds es)

pub append-AreDeliveries :
    (client_id : ℕ) (ds es : List Delivery)
    → AreDeliveries client_id ds
    → AreDeliveries client_id es
    → AreDeliveries client_id (ds ++ es)
append-AreDeliveries client_id [] es h k = k
append-AreDeliveries client_id (d ∷ ds) es h k = (h.0, append-AreDeliveries client_id ds es h.1 k)

-- The deliveries of `size` bytes.
abbrev pub AreWithin : ℕ → ℕ → List Delivery → Type 0
AreWithin client_id size ds = AreDeliveries client_id ds × (total_size ds ≤ size)

take_incoming-AreWithin :
    (app : App) (has_callback : Bool) (client_id s : ℕ) (payload : Bytes) (rc : ReqControl)
    → client_id < 2 ^ 16
    → s < 2 ^ 16
    → AreWithin client_id
        (8 + length payload)
        (take_incoming app has_callback client_id s payload rc).0
unfolding take_incoming
take_incoming-AreWithin app false client_id s payload rc hc hs = (tt, omega arith)
take_incoming-AreWithin app true client_id s payload rc hc hs =
    let e = tag_client_lem client_id s hc hs in
    (
      ((client_id_lem (tag_client client_id s) ∙ omega (arith, e), omega (arith, e)), tt),
      omega arith,
    )

answer-AreWithin :
    (app : App) (client_id s : ℕ) (payload : Bytes) (r : Request) (rc : ReqControl)
    → 0 < s
    → s < 2 ^ 15
    → AreWithin client_id (8 + length payload) (answer app s payload r rc).0
unfolding answer
answer-AreWithin app client_id s payload r rc h k = elim (Option-cases r.callback) [
  | inl no_callback ↦ rw no_callback (tt, omega arith)
  | inr (c, e) ↦ rw e (((h, k), tt), omega arith)
]

take_reply-AreWithin :
    (app : App) (client_id s : ℕ) (payload : Bytes) (rc : ReqControl)
    → 0 < s
    → s < 2 ^ 15
    → AreWithin client_id (8 + length payload) (take_reply app s payload rc).0
unfolding take_reply
take_reply-AreWithin app client_id s payload rc h k =
    elim (Option-cases (find_pending s rc.pending)) [
      | inl missing ↦ rw (take_reply, missing) (tt, omega arith)
      | inr (r, e) ↦
          rw (take_reply, e) (answer-AreWithin app client_id s payload r (remove_request rc s) h k)
    ]

-- What is no request and not unsolicited has an ID of a pending request's kind.
reply_bounds :
    (s : ℕ) → s < 2 ^ 16 → (s == 0 || seqnum_is_new_request s) ≡ false → (0 < s) × (s < 2 ^ 15)
reply_bounds s hs e =
    let h = or_false (s == 0) (seqnum_is_new_request s) e in
    (
      ground (arith, ==→ne s 0 h.0),
      elim (Bool-cases (leb (2 ^ 15) s)) [
        | inl ge ↦ cc (h.1, is_new_request_of_ge s (leb→le (2 ^ 15) s ge) hs)
        | inr lt ↦ leb→gt (2 ^ 15) s lt
      ],
    )

pub dispatch-AreWithin :
    (app : App) (has_callback : Bool) (client_id s : ℕ) (payload : Bytes) (rc : ReqControl)
    → client_id < 2 ^ 16
    → s < 2 ^ 16
    → AreWithin client_id (8 + length payload) (dispatch app has_callback client_id s payload rc).0
unfolding dispatch
dispatch-AreWithin app has_callback client_id s payload rc hc hs =
    elim (Bool-cases (s == 0 || seqnum_is_new_request s)) [
      | inl request ↦
          rw request (take_incoming-AreWithin app has_callback client_id s payload rc hc hs)
      | inr other ↦
          let b = reply_bounds s hs other in
          rw other (take_reply-AreWithin app client_id s payload rc b.0 b.1)
    ]
