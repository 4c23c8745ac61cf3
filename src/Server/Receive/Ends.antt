-- ===== src/Server/Receive/Ends.antt =====
-- When on_recv of pkg/src/af_ipc_server.c closes the client that it receives from.
use af_ipc.Common.{
  ℕ, ◌%◌, ◌^◌, ◌≡◌, ◌≢◌, refl, ◌∙◌, Bool, true, false, not, Option, none, some, List, [], ◌∷◌,
  arith, ◌==◌, inl, inr, Bool-cases, Option-cases, ℤ, Run, fault, done,
}
use af_ipc.Rpc.Memory.{Bytes}
use af_ipc.Ipc.SeqNum.{get_seq_id, get_client_id}
use af_ipc.Ipc.Requests.{Errno, Request}
use af_ipc.Ipc.Send.{Message, too_long, send}
use af_ipc.Ipc.Receive.{Delivery}
use af_ipc.Client.Orderly.{calm, send-ok, plain-ok}
use af_ipc.Server.{
  Client, Server, find_client_by_cid, is_used, status_error, close_client, close_client_by_cid,
}
use af_ipc.Server.Send.{
  Network, update_client, close_on_error, is_open, send_response, send_unsolicited, send_request,
  send_request_to, with_requests,
}
use af_ipc.Server.Ids.{is_used-remove}
use af_ipc.Server.Valid.{
  IsServer, is_used-update_client, is_used-removed, update-IsServer, close_client-IsServer,
}
use af_ipc.Server.Closed.{found-cid}
use af_ipc.Server.Receive.{
  Action, closing, responding, notifying, requesting, act, act_all, Received, Arrival, packet,
  end_of_stream, try_again, failed, close_lost, on_recv,
}
use af_ipc.Server.Receive.Kept.{Leaves, round-Leaves, act_all-IsServer}

-- Every system call of a send succeeds.
abbrev pub reliable : Request → Network
reliable r fd = calm r

-- The callbacks do not close the client `cid` themselves, and send messages that are not too long.
abbrev pub IsHarmless : ℕ → Action → Type 0
IsHarmless cid (closing other) = other ≢ cid
IsHarmless cid (responding n buf size) = too_long size ≡ false
IsHarmless cid (notifying other buf size) = too_long size ≡ false
IsHarmless cid (requesting other buf size callback context timeout) = too_long size ≡ false

abbrev pub AreHarmless : ℕ → List Action → Type 0
AreHarmless cid [] = Unit {0}
AreHarmless cid (a ∷ as') = IsHarmless cid a × AreHarmless cid as'

abbrev pub AllHarmless : ℕ → List Arrival → Type 0
AllHarmless cid [] = Unit {0}
AllHarmless cid (packet buf acts ∷ arrivals) =
    ((d : Delivery) → AreHarmless cid (acts d)) × AllHarmless cid arrivals
AllHarmless cid (a ∷ arrivals) = AllHarmless cid arrivals

abbrev Has : ℕ → Server → Type 0
Has cid s = is_used cid s.clients ≡ true

missing-unused :
    (cid : ℕ) (cs : List Client) → find_client_by_cid cid cs ≡ none → is_used cid cs ≡ false
unfolding find_client_by_cid is_used
missing-unused cid [] h = refl
missing-unused cid (c ∷ cs) h = elim (Bool-cases (c.cid == cid)) [
  | inl hit ↦ ground arith
  | inr miss ↦ rw miss (missing-unused cid cs (ground arith))
]

kept_client :
    (cid : ℕ) (c : Client) (e : Option Errno) (m : Option Message) (s : Server)
    → e ≡ none
    → Has cid s
    → Has cid (close_on_error c e m s).1
unfolding close_on_error
kept_client cid c none m s ok h = h
kept_client cid c (some e) m s ok h = cc ok

module _ (r : Request) (cid : ℕ) where
  response-Has :
      (n : ℕ) (buf : Bytes) (size : ℤ) (s : Server)
      → too_long size ≡ false
      → Has cid s
      → Has cid (send_response (reliable r) s n buf size).1
  unfolding send_response
  response-Has n buf size s fit h = elim (Bool-cases (get_seq_id n == 0)) [
    | inl unsolicited ↦ rw unsolicited h
    | inr id ↦ elim (Option-cases (find_client_by_cid (get_client_id n % 2 ^ 16) s.clients)) [
      | inl missing ↦ rw (id, missing) h
      | inr (c, found) ↦ rw (id, found) (kept_client cid c _ _ s (plain-ok r n buf size fit) h)
    ]
  ]

  unsolicited-Has :
      (other : ℕ) (buf : Bytes) (size : ℤ) (s : Server)
      → too_long size ≡ false
      → Has cid s
      → Has cid (send_unsolicited (reliable r) s other buf size).1
  unfolding send_unsolicited
  unsolicited-Has other buf size s fit h = elim (Bool-cases (other == 0)) [
    | inl all ↦ rw all h
    | inr one ↦ elim (Option-cases (find_client_by_cid other s.clients)) [
      | inl missing ↦ rw (one, missing) h
      | inr (c, found) ↦ elim (Bool-cases (is_open c.client_fd)) [
        | inl open_fd ↦
            rw (one, found, open_fd) (kept_client cid c _ _ s (plain-ok r 0 buf size fit) h)
        | inr bad ↦ rw (one, found, bad) h
      ]
    ]
  ]

  request_to-Has :
      (c : Client) (buf : Bytes) (size : ℤ) (callback : Option ℕ) (context : ℕ) (timeout : ℤ)
      (s : Server)
      → too_long size ≡ false
      → Has cid s
      → Has cid (send_request_to (reliable r) c buf size callback context timeout s).1
  unfolding send_request_to
  request_to-Has c buf size callback context timeout s fit h =
      let x = send (calm r) (some c.req_control) 0 buf size callback context timeout in
      let c' = with_requests c x.control in
      kept_client cid c' x.error x.sent
        (record s { clients = update_client c.cid c'.req_control s.clients })
        (send-ok r c.req_control 0 buf size callback context timeout fit)
        (is_used-update_client c.cid cid c'.req_control s.clients ∙ h)

  request-Has :
      (other : ℕ) (buf : Bytes) (size : ℤ) (callback : Option ℕ) (context : ℕ) (timeout : ℤ)
      (s : Server)
      → too_long size ≡ false
      → Has cid s
      → Has cid (send_request (reliable r) s other buf size callback context timeout).1
  unfolding send_request
  request-Has other buf size callback context timeout s fit h = elim (Bool-cases (other == 0)) [
    | inl bad ↦ rw bad h
    | inr one ↦ elim (Option-cases (find_client_by_cid other s.clients)) [
      | inl missing ↦ rw (one, missing) h
      | inr (c, found) ↦ elim (Bool-cases (is_open c.client_fd)) [
        | inl open_fd ↦
            rw (one, found, open_fd) (request_to-Has c buf size callback context timeout s fit h)
        | inr bad ↦ rw (one, found, bad) h
      ]
    ]
  ]

  closing-Has :
      (other : ℕ) (s : Server) → other ≢ cid → Has cid s → Has cid (close_client_by_cid other s).1
  unfolding close_client_by_cid close_client
  closing-Has other s ne h = elim (Option-cases (find_client_by_cid other s.clients)) [
    | inl missing ↦ rw (close_client_by_cid, missing) h
    | inr (c, found) ↦
        let e = found-cid other s.clients c found in
        rw (close_client_by_cid, found) (is_used-remove c.cid cid s.clients (omega arith) ∙ h)
  ]

  act-Has :
      (a : Action) (s : Server) → IsHarmless cid a → Has cid s → Has cid (act (reliable r) a s).0
  unfolding act
  act-Has (closing other) s fit h = closing-Has other s fit h
  act-Has (responding n buf size) s fit h = response-Has n buf size s fit h
  act-Has (notifying other buf size) s fit h = unsolicited-Has other buf size s fit h
  act-Has (requesting other buf size callback context timeout) s fit h =
      request-Has other buf size callback context timeout s fit h

  act_all-Has :
      (as' : List Action) (s : Server)
      → AreHarmless cid as'
      → Has cid s
      → Has cid (act_all (reliable r) as' s).0
  unfolding act_all
  act_all-Has [] s fit h = h
  act_all-Has (a ∷ as') s fit h =
      act_all-Has as' (act (reliable r) a s).0 fit.1 (act-Has a s fit.0 h)

-- Whether the stream ends or fails, before recv is to be tried again later.
abbrev pub ends : List Arrival → Bool
ends [] = false
ends (packet buf acts ∷ arrivals) = ends arrivals
ends (end_of_stream ∷ arrivals) = true
ends (failed e ∷ arrivals) = true
ends (try_again ∷ arrivals) = false

-- The invariant, and whether the client is still there.
abbrev pub IsEnded : ℕ → Bool → Server → Type 0
IsEnded cid closed s = IsServer s × (is_used cid s.clients ≡ not closed)

lost-IsEnded :
    (cid : ℕ) (s : Server)
    → IsServer s
    → Has cid s
    → Leaves (IsEnded cid true) (⊥) (close_lost cid s)
unfolding close_lost close_client
lost-IsEnded cid s h has = elim (Option-cases (find_client_by_cid cid s.clients)) [
  | inl missing ↦ absurd (cc (missing-unused cid s.clients missing))
  | inr (c, found) ↦
      rw (close_lost, found)
        (
          close_client-IsServer status_error c s h,
          rw (found-cid cid s.clients c found) (is_used-removed cid s.clients h.all_clients),
        )
]

recv-IsEnded :
    (r : Request) (arrivals : List Arrival) (cid : ℕ) (s : Server)
    → AllHarmless cid arrivals
    → IsServer s
    → Has cid s
    → Leaves (IsEnded cid (ends arrivals)) (⊥) (on_recv (reliable r) arrivals cid s)
unfolding on_recv
recv-IsEnded r [] cid s fit h has = (h, has)
recv-IsEnded r (packet buf acts ∷ arrivals) cid s fit h has =
    round-Leaves (IsEnded cid false) (⊥) (reliable r) acts cid
      (λ s' h' missing. cc (h'.1, missing-unused cid s'.clients missing))
      (λ rc s' h'.
        (update-IsServer cid rc s' h'.0, is_used-update_client cid cid rc s'.clients ∙ h'.1))
      (λ d s' h'. (
        act_all-IsServer (reliable r) (acts d) s' h'.0,
        act_all-Has r cid (acts d) s' (fit.0 d) h'.1,
      ))
      (IsEnded cid (ends arrivals)) buf s (on_recv (reliable r) arrivals cid) (h, has)
      λ s' h'. recv-IsEnded r arrivals cid s' fit.1 h'.0 h'.1
recv-IsEnded r (end_of_stream ∷ arrivals) cid s fit h has = lost-IsEnded cid s h has
recv-IsEnded r (failed e ∷ arrivals) cid s fit h has = lost-IsEnded cid s h has
recv-IsEnded r (try_again ∷ arrivals) cid s fit h has = (h, has)

left :
    (P : Server → Type 0) (x : Run Received)
    → Leaves P (⊥) x
    → (q : Received) × (x ≡ done q) × P q.0
left P fault h = absurd h
left P (done (s, es)) h = ((s, es), refl, h)

-- Provided that every system call of a send succeeds, that the callbacks send only messages that are
-- not too long, and that they do not close the client that the message is from (other clients they
-- may): whatever arrives, on_recv returns without a use of freed memory and keeps the invariant of
-- the clients, and it closes its own client exactly if the stream ends or recv fails before recv is
-- to be tried again.
pub on_recv-ends :
    (r : Request) (arrivals : List Arrival) (cid : ℕ) (s : Server)
    → AllHarmless cid arrivals
    → IsServer s
    → is_used cid s.clients ≡ true
    → (q : Received) × (on_recv (reliable r) arrivals cid s ≡ done q)
      × IsEnded cid (ends arrivals) q.0
on_recv-ends r arrivals cid s fit h has =
    left (IsEnded cid (ends arrivals)) (on_recv (reliable r) arrivals cid s)
      (recv-IsEnded r arrivals cid s fit h has)
