-- ===== src/Server/Receive/Kept.antt =====
-- What the callbacks of a server keep, the loop over the messages of pkg/src/af_ipc_server.c keeps.
use af_ipc.Common.{
  ℕ, zero, suc, ◌+◌, ◌-◌, ◌<◌, ◌≡◌, ◌||◌, or_false, Option, none, some, List, [], ◌∷◌, arith, inl,
  inr, Bool-cases, Option-cases, ltb, leb, ltb→ge, ltb→lt, Run, fault, done, ◌>>=◌, length, take,
  drop,
}
use mathlib.Core.Option
use af_ipc.Rpc.Memory.{Bytes}
use af_ipc.Ipc.SeqNum.{get_seq_id}
use af_ipc.Ipc.Requests.{ReqControl}
use af_ipc.Ipc.Receive.{Delivery, header_len, header_seq_num, dispatch}
use af_ipc.Server.{Server, Effect, find_client_by_cid, status_error}
use af_ipc.Server.Send.{Network, update_client}
use af_ipc.Server.Receive.{
  Action, closing, responding, notifying, requesting, act, act_all, call_all, take_message,
  continue_with, receive_messages, returned, take_packet, after_packet, close_lost, Received,
  then_more, Arrival, packet, end_of_stream, try_again, failed, on_recv,
}
use af_ipc.Server.Valid.{
  IsServer, close_client-IsServer, update-IsServer, close_client_by_cid-IsServer,
  send_response-IsServer, send_unsolicited-IsServer, send_request-IsServer,
}

-- A run that leaves a server with `P`, or faults if `F` holds.
abbrev pub Leaves : (Server → Type 0) → Type 0 → Run Received → Type 0
Leaves P F fault = F
Leaves P F (done (s, es)) = P s

abbrev pub LoopLeaves : (Server → Type 0) → Type 0 → Option (Run Received) → Type 0
LoopLeaves P F none = ⊥
LoopLeaves P F (some x) = Leaves P F x

pub more-Leaves :
    (P : Server → Type 0) (F : Type 0) (es : List Effect) (x : Run Received)
    → Leaves P F x
    → Leaves P F (x >>= λ r. done (then_more es r))
more-Leaves P F es fault h = h
more-Leaves P F es (done (s, fs)) h = h

module _ (P : Server → Type 0) (F : Type 0) (net : Network) (acts : Delivery → List Action)
    (cid : ℕ) (lost : (s : Server) → P s → find_client_by_cid cid s.clients ≡ none → F)
    (updated : (rc : ReqControl) (s : Server)
      → P s
      → P (record s { clients = update_client cid rc s.clients }))
    (acted : (d : Delivery) (s : Server) → P s → P (act_all net (acts d) s).0) where
  calls-Leave : (ds : List Delivery) (s : Server) → P s → P (call_all net acts cid ds s).0
  unfolding call_all
  calls-Leave [] s h = h
  calls-Leave (d ∷ ds) s h = calls-Leave ds (act_all net (acts d) s).0 (acted d s h)

  message-Leaves :
      (seq_id : ℕ) (payload : Bytes) (s : Server)
      → P s
      → Leaves P F (take_message net acts cid seq_id payload s)
  unfolding take_message
  message-Leaves seq_id payload s h = elim (Option-cases (find_client_by_cid cid s.clients)) [
    | inl missing ↦ rw (take_message, missing) (lost s h missing)
    | inr (c, found) ↦
        let r = dispatch (λ d r. r) s.receive_callback cid seq_id payload c.req_control in
        rw (take_message, found)
          (calls-Leave r.0 (record s { clients = update_client cid r.1 s.clients })
            (updated r.1 s h))
  ]

  next-Leaves :
      (rest : Server → Option (Run Received)) (x : Run Received)
      → Leaves P F x
      → ((s : Server) → P s → LoopLeaves P F (rest s))
      → LoopLeaves P F (continue_with rest x)
  next-Leaves rest fault h k = h
  next-Leaves rest (done (s, es)) h k = more (rest s) (k s h)
    where
      more :
          (o : Option (Run Received))
          → LoopLeaves P F o
          → LoopLeaves P F (Option.map (λ x. x >>= λ r. done (then_more es r)) o)
      more none b = b
      more (some x) b = more-Leaves P F es x b

  receive-Leaves :
      (fuel : ℕ) (buf : Bytes) (p : ℕ) (s : Server)
      → length buf - p < fuel
      → P s
      → LoopLeaves P F (receive_messages fuel net acts cid buf p s)
  unfolding receive_messages
  receive-Leaves zero buf p s enough h = absurd (omega arith)
  receive-Leaves (suc fuel) buf p s enough h =
      let m = header_len buf p in
      elim (Bool-cases (ltb p (length buf))) [
        | inr end ↦ rw end h
        | inl more ↦ elim (Bool-cases (leb (length buf) (p + 8))) [
          | inl short ↦ rw (more, short) h
          | inr room ↦ elim (Bool-cases (ltb (length buf) (p + m) || ltb m 8)) [
            | inl bad ↦ rw (more, room, bad) h
            | inr good ↦
                let (inside, header) = or_false (ltb (length buf) (p + m)) (ltb m 8) good in
                rw (more, room, good)
                  (next-Leaves _ _
                    (message-Leaves (get_seq_id (header_seq_num buf p))
                      (take (m - 8) (drop (p + 8) buf)) s h)
                    λ s' h'.
                      receive-Leaves fuel buf (p + m) s'
                        (omega (arith, ltb→ge m 8 header, ltb→lt p (length buf) more)) h')
          ]
        ]
      ]

  packet-Leaves : (buf : Bytes) (s : Server) → P s → Leaves P F (take_packet net acts cid buf s)
  unfolding take_packet
  packet-Leaves buf s h =
      looped (receive_messages (length buf + 1) net acts cid buf 0 s)
        (receive-Leaves (length buf + 1) buf 0 s (omega arith) h)
    where
      looped : (o : Option (Run Received)) → LoopLeaves P F o → Leaves P F (returned o)
      looped none b = absurd b
      looped (some x) b = b

  -- A packet, and the flags behind it.
  pub round-Leaves :
      (Q : Server → Type 0) (buf : Bytes) (s : Server) (rest : Server → Run Received)
      → P s
      → ((s' : Server) → P s' → Leaves Q F (rest s'))
      → Leaves Q F (take_packet net acts cid buf s >>= after_packet rest cid)
  unfolding after_packet
  round-Leaves Q buf s rest h k = flags (take_packet net acts cid buf s) (packet-Leaves buf s h)
    where
      flags : (x : Run Received) → Leaves P F x → Leaves Q F (x >>= after_packet rest cid)
      flags fault b = b
      flags (done (s', es)) b = elim (Option-cases (find_client_by_cid cid s'.clients)) [
        | inl missing ↦ rw (after_packet, missing) (lost s' b missing)
        | inr (c, found) ↦ rw (after_packet, found) (more-Leaves Q F es (rest s') (k s' b))
      ]

-- Whatever a callback does, the invariant is kept.
act-IsServer : (net : Network) (a : Action) (s : Server) → IsServer s → IsServer (act net a s).0
unfolding act
act-IsServer net (closing cid) s h = close_client_by_cid-IsServer cid s h
act-IsServer net (responding n buf size) s h = send_response-IsServer net s n buf size h
act-IsServer net (notifying cid buf size) s h = send_unsolicited-IsServer net s cid buf size h
act-IsServer net (requesting cid buf size callback context timeout) s h =
    send_request-IsServer net s cid buf size callback context timeout h

pub act_all-IsServer :
    (net : Network) (as' : List Action) (s : Server) → IsServer s → IsServer (act_all net as' s).0
unfolding act_all
act_all-IsServer net [] s h = h
act_all-IsServer net (a ∷ as') s h =
    act_all-IsServer net as' (act net a s).0 (act-IsServer net a s h)

lost-IsServer : (cid : ℕ) (s : Server) → IsServer s → Leaves IsServer (Unit {0}) (close_lost cid s)
unfolding close_lost
lost-IsServer cid s h = elim (Option-cases (find_client_by_cid cid s.clients)) [
  | inl missing ↦ rw (close_lost, missing) tt
  | inr (c, found) ↦ rw (close_lost, found) (close_client-IsServer status_error c s h)
]

-- A receive event that does not end in a fault keeps the invariant.
pub on_recv-IsServer :
    (net : Network) (arrivals : List Arrival) (cid : ℕ) (s : Server)
    → IsServer s
    → Leaves IsServer (Unit {0}) (on_recv net arrivals cid s)
unfolding on_recv
on_recv-IsServer net [] cid s h = h
on_recv-IsServer net (packet buf acts ∷ arrivals) cid s h =
    round-Leaves IsServer (Unit {0}) net acts cid (λ s' h' missing. tt) (update-IsServer cid)
      (λ d. act_all-IsServer net (acts d)) IsServer buf s (on_recv net arrivals cid) h
      λ s' h'. on_recv-IsServer net arrivals cid s' h'
on_recv-IsServer net (end_of_stream ∷ arrivals) cid s h = lost-IsServer cid s h
on_recv-IsServer net (failed e ∷ arrivals) cid s h = lost-IsServer cid s h
on_recv-IsServer net (try_again ∷ arrivals) cid s h = h
