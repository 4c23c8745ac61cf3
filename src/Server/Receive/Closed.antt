-- ===== src/Server/Receive/Closed.antt =====
-- A receive callback that closes its own client, in on_recv of pkg/src/af_ipc_server.c.
use af_ipc.Common.{
  ℕ, zero, suc, if_both, ltb, leb, ◌||◌, ◌+◌, ◌-◌, ◌≡◌, refl, subst, true, false, Option, none,
  some, List, [], ◌∷◌, arith, ◌==◌, inl, inr, Bool-cases, Option-cases, lt→ltb, gt→leb, ge→ltb, Run,
  fault, done, ◌>>=◌, length, take, drop,
}
use mathlib.Core.Option
use af_ipc.Rpc.Memory.{Bytes}
use af_ipc.Ipc.Send.{msghdr_len}
use af_ipc.Ipc.Receive.{Delivery, header_len, dispatch, take_incoming}
use af_ipc.Ipc.Receive.First.{first_seq_id, first_incoming, StartsIncoming}
use af_ipc.Server.{
  Client, Server, find_client_by_cid, is_used, close_client, close_client_by_cid, remove_client,
}
use af_ipc.Server.Send.{Network, update_client}
use af_ipc.Server.Valid.{IsServer, is_used-removed, update-IsServer}
use af_ipc.Server.Closed.{found-cid}
use af_ipc.Server.Receive.{
  Action, closing, act, act_all, call_all, take_message, continue_with, receive_messages,
  take_packet, returned, then_more, after_packet, Received, Arrival, packet, on_recv,
}

unused-missing :
    (cid : ℕ) (cs : List Client) → is_used cid cs ≡ false → find_client_by_cid cid cs ≡ none
unfolding find_client_by_cid is_used
unused-missing cid [] h = refl
unused-missing cid (c ∷ cs) h = elim (Bool-cases (c.cid == cid)) [
  | inl hit ↦ ground arith
  | inr miss ↦ rw miss (unused-missing cid cs (ground arith))
]

-- After af_ipcs_close_client the client is gone.
closed-missing :
    (cid : ℕ) (s : Server)
    → IsServer s
    → find_client_by_cid cid (close_client_by_cid cid s).1.clients ≡ none
unfolding close_client_by_cid close_client
closed-missing cid s h = elim (Option-cases (find_client_by_cid cid s.clients)) [
  | inl missing ↦ rw (close_client_by_cid, missing) missing
  | inr (c, found) ↦
      rw (close_client_by_cid, found)
        (rw (found-cid cid s.clients c found) (
          unused-missing cid (remove_client cid s.clients)
            (is_used-removed cid s.clients h.all_clients)))
]

-- The client is gone, so the rest of the event faults.
abbrev IsGone : ℕ → Run Received → Type 0
IsGone cid fault = Unit {0}
IsGone cid (done (s, es)) = find_client_by_cid cid s.clients ≡ none

abbrev IsGoneLoop : ℕ → Option (Run Received) → Type 0
IsGoneLoop cid none = Unit {0}
IsGoneLoop cid (some x) = IsGone cid x

loop-IsGone :
    (fuel : ℕ) (net : Network) (acts : Delivery → List Action) (cid : ℕ) (buf : Bytes) (p : ℕ)
    (s : Server)
    → find_client_by_cid cid s.clients ≡ none
    → IsGoneLoop cid (receive_messages fuel net acts cid buf p s)
unfolding receive_messages take_message
loop-IsGone zero net acts cid buf p s missing = tt
loop-IsGone (suc fuel) net acts cid buf p s missing =
    if_both (IsGoneLoop cid) (ltb p (length buf)) _ _
      (if_both (IsGoneLoop cid) (leb (length buf) (p + 8)) _ _ missing (
        if_both (IsGoneLoop cid)
          (ltb (length buf) (p + header_len buf p) || ltb (header_len buf p) 8) _ _ missing
          (rw (take_message, missing) tt)))
      missing

next-IsGone :
    (cid : ℕ) (rest : Server → Option (Run Received)) (x : Run Received)
    → IsGone cid x
    → ((s : Server) → find_client_by_cid cid s.clients ≡ none → IsGoneLoop cid (rest s))
    → IsGoneLoop cid (continue_with rest x)
next-IsGone cid rest fault h k = tt
next-IsGone cid rest (done (s, es)) h k = more (rest s) (k s h)
  where
    more :
        (o : Option (Run Received))
        → IsGoneLoop cid o
        → IsGoneLoop cid (Option.map (λ x. x >>= λ r. done (then_more es r)) o)
    more none b = tt
    more (some fault) b = tt
    more (some (done r)) b = b

gone-faults :
    (cid : ℕ) (rest : Server → Run Received) (o : Option (Run Received))
    → IsGoneLoop cid o
    → (returned o >>= after_packet rest cid) ≡ fault
unfolding after_packet
gone-faults cid rest none h = refl
gone-faults cid rest (some fault) h = refl
gone-faults cid rest (some (done (s, es))) h = rw (after_packet, h) refl

-- The first message is for a callback that closes the client.
module _ (net : Network) (acts : Delivery → List Action) (cid : ℕ) (buf : Bytes) (s : Server)
    (start : StartsIncoming buf) (callback : s.receive_callback ≡ true)
    (closes : acts (first_incoming cid buf) ≡ closing cid ∷ []) (h : IsServer s) where
  message-IsGone : IsGone cid (
      take_message net acts cid
        (first_seq_id buf)
        (take (header_len buf 0 - msghdr_len) (drop 8 buf))
        s)
  unfolding take_message dispatch take_incoming call_all act_all act
  message-IsGone = elim (Option-cases (find_client_by_cid cid s.clients)) [
    | inl missing ↦ rw (take_message, missing) tt
    | inr (c, found) ↦
        rw (take_message, found, start.for_callback, callback, closes)
          (closed-missing cid
            (record s {
              clients = update_client cid c.req_control s.clients;
              receive_callback = true;
            })
            (record {
              last_word = h.last_word;
              all_clients = (update-IsServer cid c.req_control s h).all_clients;
            }))
  ]

  first-IsGone : (fuel : ℕ) → IsGoneLoop cid (receive_messages (suc fuel) net acts cid buf 0 s)
  unfolding receive_messages
  first-IsGone fuel =
      rw
        (
          lt→ltb 0 (length buf) (omega (arith, start.has_body)),
          gt→leb (length buf) 8 start.has_body,
          ge→ltb (length buf) (0 + header_len buf 0) (omega (arith, start.inside)),
          ge→ltb (header_len buf 0) 8 start.has_header,
        )
        (next-IsGone cid _ _ message-IsGone
          λ s' missing. loop-IsGone fuel net acts cid buf (0 + header_len buf 0) s' missing)

-- If a packet starts with a whole request or unsolicited message, for which the receive callback calls
-- af_ipcs_close_client with the ID of the message's own client, then the event ends in a fault,
-- whatever follows: the structure of the client is freed, and on_recv uses it after that.
pub on_recv-closed :
    (net : Network) (acts : Delivery → List Action) (arrivals : List Arrival) (cid : ℕ)
    (buf : Bytes) (s : Server)
    → StartsIncoming buf
    → s.receive_callback ≡ true
    → acts (first_incoming cid buf) ≡ closing cid ∷ []
    → IsServer s
    → on_recv net (packet buf acts ∷ arrivals) cid s ≡ fault
unfolding on_recv take_packet
on_recv-closed net acts arrivals cid buf s start callback closes h =
    gone-faults cid (on_recv net arrivals cid) _ (
      subst (λ k. IsGoneLoop cid (receive_messages k net acts cid buf 0 s)) {x = suc (length buf)}
        {y = length buf + 1} (omega arith)
        (first-IsGone net acts cid buf s start callback closes h (length buf)))
