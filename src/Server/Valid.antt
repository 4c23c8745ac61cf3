-- ===== src/Server/Valid.antt =====
-- The invariant of the list of clients of pkg/src/af_ipc_server.c.
use af_ipc.Common.{
  ℕ, ◌%◌, ◌^◌, ◌<◌, ◌≡◌, ◌≢◌, refl, ap, sym, ◌∙◌, false, Option, none, some, List, [], ◌∷◌, arith,
  ◌==◌, inl, inr, Bool-cases, Option-cases, ==→eq, ℤ, pos, negsuc,
}
use af_ipc.Rpc.Memory.{Bytes}
use af_ipc.Ipc.SeqNum.{get_seq_id, get_client_id}
use af_ipc.Ipc.Requests.{Errno, ReqControl}
use af_ipc.Ipc.Send.{Message, send}
use af_ipc.Server.{
  Client, Server, is_used, find_client_by_cid, remove_client, close_client, close_client_by_cid,
}
use af_ipc.Server.Send.{
  Network, update_client, close_on_error, send_response, send_unsolicited, send_request_to,
  send_request, with_requests, is_open,
}

-- The IDs are not 0, fit 16 bits, and differ from each other.
abbrev pub AreClients : List Client → Type 0
AreClients [] = Unit {0}
AreClients (c ∷ cs) = (0 < c.cid) × (c.cid < 2 ^ 16) × (is_used c.cid cs ≡ false) × AreClients cs

pub record IsServer (s : Server) : Type 0 where
  pub last_word : s.last_cid < 2 ^ 16
  pub all_clients : AreClients s.clients

pub is_used-remove_client :
    (cid d : ℕ) (cs : List Client) → is_used d cs ≡ false → is_used d (remove_client cid cs) ≡ false
unfolding is_used remove_client
is_used-remove_client cid d [] h = refl
is_used-remove_client cid d (c ∷ cs) h = ground (arith, is_used-remove_client cid d cs)

pub remove_client-AreClients :
    (cid : ℕ) (cs : List Client) → AreClients cs → AreClients (remove_client cid cs)
unfolding remove_client
remove_client-AreClients cid [] h = tt
remove_client-AreClients cid (c ∷ cs) h = elim (Bool-cases (c.cid == cid)) [
  | inl hit ↦ rw hit h.3
  | inr miss ↦
      rw miss
        (h.0, h.1, is_used-remove_client cid c.cid cs h.2, remove_client-AreClients cid cs h.3)
]

pub is_used-update_client :
    (cid d : ℕ) (rc : ReqControl) (cs : List Client)
    → is_used d (update_client cid rc cs) ≡ is_used d cs
unfolding is_used update_client
is_used-update_client cid d rc [] = refl
is_used-update_client cid d rc (c ∷ cs) = ground (arith, is_used-update_client cid d rc cs)

pub update_client-AreClients :
    (cid : ℕ) (rc : ReqControl) (cs : List Client)
    → AreClients cs
    → AreClients (update_client cid rc cs)
unfolding update_client
update_client-AreClients cid rc [] h = tt
update_client-AreClients cid rc (c ∷ cs) h = elim (Bool-cases (c.cid == cid)) [
  | inl hit ↦ rw hit (h.0, h.1, h.2, h.3)
  | inr miss ↦ rw miss (
    h.0,
    h.1,
    is_used-update_client cid c.cid rc cs ∙ h.2,
    update_client-AreClients cid rc cs h.3,
  )
]

-- A client that is closed has an ID no more.
pub is_used-removed :
    (cid : ℕ) (cs : List Client) → AreClients cs → is_used cid (remove_client cid cs) ≡ false
unfolding is_used remove_client
is_used-removed cid [] h = refl
is_used-removed cid (c ∷ cs) h = elim (Bool-cases (c.cid == cid)) [
  | inl hit ↦ rw hit (ap (λ i. is_used i cs) (sym (==→eq c.cid cid hit)) ∙ h.2)
  | inr miss ↦ rw (miss, miss) (is_used-removed cid cs h.3)
]

pub find-remove_other :
    (cid d : ℕ) (cs : List Client)
    → cid ≢ d
    → find_client_by_cid d (remove_client cid cs) ≡ find_client_by_cid d cs
unfolding find_client_by_cid remove_client
find-remove_other cid d [] h = refl
find-remove_other cid d (c ∷ cs) h = ground (arith, find-remove_other cid d cs)

-- close_client and the functions that may call it.
pub close_client-IsServer :
    (status : ℤ) (c : Client) (s : Server) → IsServer s → IsServer (close_client status c s).0
unfolding close_client
close_client-IsServer status c s h = record {
  last_word = h.last_word;
  all_clients = remove_client-AreClients c.cid s.clients h.all_clients;
}

pub close_on_error-IsServer :
    (c : Client) (e : Option Errno) (m : Option Message) (s : Server)
    → IsServer s
    → IsServer (close_on_error c e m s).1
unfolding close_on_error
close_on_error-IsServer c none m s h = h
close_on_error-IsServer c (some e) m s h = close_client-IsServer (negsuc 0) c s h

pub send_response-IsServer :
    (net : Network) (s : Server) (n : ℕ) (buf : Bytes) (size : ℤ)
    → IsServer s
    → IsServer (send_response net s n buf size).1
unfolding send_response
send_response-IsServer net s n buf size h = elim (Bool-cases (get_seq_id n == 0)) [
  | inl unsolicited ↦ rw unsolicited h
  | inr id ↦ elim (Option-cases (find_client_by_cid (get_client_id n % 2 ^ 16) s.clients)) [
    | inl missing ↦ rw (id, missing) h
    | inr (c, found) ↦ rw (id, found) (close_on_error-IsServer c _ _ s h)
  ]
]

pub send_unsolicited-IsServer :
    (net : Network) (s : Server) (cid : ℕ) (buf : Bytes) (size : ℤ)
    → IsServer s
    → IsServer (send_unsolicited net s cid buf size).1
unfolding send_unsolicited
send_unsolicited-IsServer net s cid buf size h = elim (Bool-cases (cid == 0)) [
  | inl all ↦ rw all h
  | inr one ↦ elim (Option-cases (find_client_by_cid cid s.clients)) [
    | inl missing ↦ rw (one, missing) h
    | inr (c, found) ↦ elim (Bool-cases (is_open c.client_fd)) [
      | inl open_fd ↦ rw (one, found, open_fd) (close_on_error-IsServer c _ _ s h)
      | inr bad ↦ rw (one, found, bad) h
    ]
  ]
]

pub update-IsServer :
    (cid : ℕ) (rc : ReqControl) (s : Server)
    → IsServer s
    → IsServer (record s { clients = update_client cid rc s.clients })
update-IsServer cid rc s h = record {
  last_word = h.last_word;
  all_clients = update_client-AreClients cid rc s.clients h.all_clients;
}

send_request_to-IsServer :
    (net : Network) (c : Client) (buf : Bytes) (size : ℤ) (callback : Option ℕ) (context : ℕ)
    (timeout : ℤ) (s : Server)
    → IsServer s
    → IsServer (send_request_to net c buf size callback context timeout s).1
unfolding send_request_to
send_request_to-IsServer net c buf size callback context timeout s h =
    let r = send (net c.client_fd) (some c.req_control) 0 buf size callback context timeout in
    let c' = with_requests c r.control in
    close_on_error-IsServer c' r.error r.sent
      (record s { clients = update_client c.cid c'.req_control s.clients })
      (update-IsServer c.cid c'.req_control s h)

pub send_request-IsServer :
    (net : Network) (s : Server) (cid : ℕ) (buf : Bytes) (size : ℤ) (callback : Option ℕ)
    (context : ℕ) (timeout : ℤ)
    → IsServer s
    → IsServer (send_request net s cid buf size callback context timeout).1
unfolding send_request
send_request-IsServer net s cid buf size callback context timeout h = elim (Bool-cases (cid == 0)) [
  | inl bad ↦ rw bad h
  | inr one ↦ elim (Option-cases (find_client_by_cid cid s.clients)) [
    | inl missing ↦ rw (one, missing) h
    | inr (c, found) ↦ elim (Bool-cases (is_open c.client_fd)) [
      | inl open_fd ↦
          rw (one, found, open_fd)
            (send_request_to-IsServer net c buf size callback context timeout s h)
      | inr bad ↦ rw (one, found, bad) h
    ]
  ]
]

pub close_client_by_cid-IsServer :
    (cid : ℕ) (s : Server) → IsServer s → IsServer (close_client_by_cid cid s).1
unfolding close_client_by_cid
close_client_by_cid-IsServer cid s h = elim (Option-cases (find_client_by_cid cid s.clients)) [
  | inl missing ↦ rw (close_client_by_cid, missing) h
  | inr (c, found) ↦ rw (close_client_by_cid, found) (close_client-IsServer (pos 0) c s h)
]
