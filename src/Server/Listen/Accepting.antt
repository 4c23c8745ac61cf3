-- ===== src/Server/Listen/Accepting.antt =====
-- on_accept of pkg/src/af_ipc_server.c: what becomes of an accepted socket.
use af_ipc.Common.{
  ℕ, ◌^◌, ◌<◌, ◌≡◌, refl, sym, subst, Bool, true, false, Option, none, some, List, [], ◌∷◌, ◌⊎◌,
  inl, inr, ltb, if◌then◌else◌, ℤ, pos, negsuc, length,
}
use af_ipc.Ipc.Requests.{Errno, ReqControl, init_requests}
use af_ipc.Server.{
  Client, Server, Effect, close_socket, Resources, add_client, alloc_and_init_client, get_next_cid,
  enter, set_up, cleared,
}
use af_ipc.Server.Accept.{IsAdded, add_client-IsAdded}
use af_ipc.Server.Ids.{get_next_cid-total}
use af_ipc.Server.Valid.{IsServer}
use af_ipc.Server.Listen.{with_client, on_accept, fd_setsize}

-- A client has the socket.
abbrev pub HasFd : ℤ → List Client → Type 0
HasFd fd [] = ⊥
HasFd fd (c ∷ cs) = (c.client_fd ≡ fd) ⊎ HasFd fd cs

-- The socket has a client, or was closed; without one nothing has changed.
abbrev pub IsKept : Bool → ℤ → Server → Server → List Effect → Type 0
IsKept true (pos n) s s' es = HasFd (pos n) s'.clients ⊎ (es ≡ close_socket (pos n) ∷ [])
IsKept true (negsuc n) s s' es = (s' ≡ s) × (es ≡ [])
IsKept false fd s s' es = (s' ≡ s) × (es ≡ [])

abbrev IsOver : ℕ → Option (Server × List Effect) → Type 0
IsOver n none = ⊥
IsOver n (some (s, es)) = HasFd (pos n) s.clients ⊎ (es ≡ close_socket (pos n) ∷ [])

abbrev IsValidIfAny : Option (Server × List Effect) → Type 0
IsValidIfAny none = Unit {0}
IsValidIfAny (some (s, es)) = IsServer s

entered-IsOver :
    (r : Option Errno × ℕ × Option ReqControl) (context : ℕ → ℕ) (n cid : ℕ) (s : Server)
    → IsOver n (with_client (pos n) (set_up true context (pos n) s (some (enter r cid s))))
unfolding set_up enter
entered-IsOver (none, mutex, some rc) context n cid s = inl (inl refl)
entered-IsOver (none, mutex, none) context n cid s = inr refl
entered-IsOver (some e, mutex, rc) context n cid s = inr refl

alloc-IsOver :
    (alloc : Bool) (o : Option ℕ) (r : Option Errno × ℕ × Option ReqControl) (context : ℕ → ℕ)
    (n cid : ℕ) (s : Server)
    → o ≡ some cid
    → IsOver n (
        with_client (pos n) (
          set_up true context (pos n) s (
            if alloc
            then (elim o [ none ↦ none | some k ↦ some (enter r k s) ])
            else some (none, s))))
unfolding set_up
alloc-IsOver false o r context n cid s e = inr refl
alloc-IsOver true none r context n cid s e = absurd (cc)
alloc-IsOver true (some k) r context n cid s e = entered-IsOver r context n k s

added-IsOver :
    (res : Resources) (context : ℕ → ℕ) (n : ℕ) (s : Server)
    → res.event ≡ true
    → s.last_cid < 2 ^ 16
    → length s.clients < 65535
    → IsOver n (with_client (pos n) (add_client res context (pos n) s))
unfolding add_client alloc_and_init_client
added-IsOver res context n s event word few =
    let (cid, e, positive, small, free) = get_next_cid-total s word few in
    subst
      (λ b.
        IsOver n (with_client (pos n) (set_up b context (pos n) s (alloc_and_init_client res s))))
      (sym event)
      (alloc-IsOver res.alloc (get_next_cid s) (init_requests res.pool res.mutex (some cleared))
        context n cid s e)

added-IsValid :
    (fd : ℤ) (o : Option (Option Client × Server × List Effect))
    → IsAdded o
    → IsValidIfAny (with_client fd o)
added-IsValid fd none h = h
added-IsValid fd (some (none, s, es)) h = h
added-IsValid fd (some (some c, s, es)) h = h

both :
    (n : ℕ) (o : Option (Server × List Effect))
    → IsOver n o
    → IsValidIfAny o
    → (s : Server) × (es : List Effect) × (o ≡ some (s, es))
      × IsServer s
      × (HasFd (pos n) s.clients ⊎ (es ≡ close_socket (pos n) ∷ []))
both n none h k = absurd h
both n (some (s, es)) h k = (s, es, refl, k, h)

-- A descriptor that is too large is closed at once.
if-kept :
    (large : Bool) (n : ℕ) (s : Server) (o : Option (Server × List Effect))
    → IsServer s
    → (s' : Server) × (es : List Effect) × (o ≡ some (s', es))
      × IsServer s'
      × (HasFd (pos n) s'.clients ⊎ (es ≡ close_socket (pos n) ∷ []))
    → (s' : Server) × (es : List Effect) × ((if large
          then some (s, close_socket (pos n) ∷ [])
          else o)
        ≡ some (s', es))
      × IsServer s'
      × (HasFd (pos n) s'.clients ⊎ (es ≡ close_socket (pos n) ∷ []))
if-kept true n s o h k = (s, close_socket (pos n) ∷ [], refl, h, inr refl)
if-kept false n s o h k = k

-- While fewer than 65535 clients are connected and the receive event of a new client can be made,
-- on_accept returns, whatever accept and the other calls answer, and keeps the invariant of the
-- clients' IDs; the socket that was accepted belongs to a client then, or it is closed; if none was
-- accepted nothing has changed.
pub on_accept-IsKept :
    (res : Resources) (context : ℕ → ℕ) (readable : Bool) (fd : ℤ) (s : Server)
    → res.event ≡ true
    → length s.clients < 65535
    → IsServer s
    → (s' : Server) × (es : List Effect) × (on_accept res context readable fd s ≡ some (s', es))
      × IsServer s'
      × IsKept readable fd s s' es
unfolding on_accept
on_accept-IsKept res context false fd s event few h = (s, [], refl, h, (refl, refl))
on_accept-IsKept res context true (negsuc n) s event few h = (s, [], refl, h, (refl, refl))
on_accept-IsKept res context true (pos n) s event few h =
    if-kept (ltb fd_setsize n) n s (with_client (pos n) (add_client res context (pos n) s)) h (
      both n (with_client (pos n) (add_client res context (pos n) s))
        (added-IsOver res context n s event h.last_word few)
        (added-IsValid (pos n) (add_client res context (pos n) s)
          (add_client-IsAdded res context (pos n) s h)))
