-- ===== src/Server/Listen/Clients.antt =====
-- What af_ipcs_close of pkg/src/af_ipc_server.c does with the clients.
use af_ipc.Common.{
  ℕ, ◌≡◌, refl, ap, ap₂, sym, ◌∙◌, Bool, true, false, List, [], ◌∷◌, ◌++◌, append-nil, inl, inr,
  Bool-cases, if_both, if◌then◌else◌, ℤ, map, ◌+◌, ◌<◌, subst, some, done, length, Returns,
}
use af_ipc.Ipc.Requests.{shutdown_requests}
use af_ipc.Client.{has_socket}
use af_ipc.Server.{Client, Server, status_ok}
use af_ipc.Server.Listen.{
  Listener, Use, take_memory, take_pool, take_mutex, take_event, take_socket, free_memory,
  free_pool, free_mutex, free_event, free_socket, shut_listener, shut_client, free_client_event,
  free_client_timer, free_client_socket, call_close, close_one, close_clients, close_server,
}
use af_ipc.Rpc.Memory.{Bytes}
use af_ipc.Server.Steps.{opened}
use af_ipc.Server.Listen.{end_of_clients, Opening, open_server, listening}
use af_ipc.Server.Listen.Balance.{
  Held, nothing, one_each, only_mutex, after_use, held, IsBalanced, open_server-IsBalanced,
}

-- The sockets of clients that are closed, and the calls of the close callback.
abbrev pub client_sockets : List Use → List ℤ
client_sockets [] = []
client_sockets (free_client_socket fd ∷ us) = fd ∷ client_sockets us
client_sockets (u ∷ us) = client_sockets us

abbrev pub close_calls : List Use → List (ℤ × (ℕ × ℕ))
close_calls [] = []
close_calls (call_close status cid context ∷ us) = (status, (cid, context)) ∷ close_calls us
close_calls (u ∷ us) = close_calls us

pub client_sockets-append :
    (us vs : List Use) → client_sockets (us ++ vs) ≡ client_sockets us ++ client_sockets vs
client_sockets-append [] vs = refl
client_sockets-append (take_memory ∷ us) vs = client_sockets-append us vs
client_sockets-append (take_pool ∷ us) vs = client_sockets-append us vs
client_sockets-append (take_mutex ∷ us) vs = client_sockets-append us vs
client_sockets-append (take_event ∷ us) vs = client_sockets-append us vs
client_sockets-append (free_memory ∷ us) vs = client_sockets-append us vs
client_sockets-append (free_pool ∷ us) vs = client_sockets-append us vs
client_sockets-append (free_mutex ∷ us) vs = client_sockets-append us vs
client_sockets-append (free_event ∷ us) vs = client_sockets-append us vs
client_sockets-append (take_socket fd ∷ us) vs = client_sockets-append us vs
client_sockets-append (free_socket fd ∷ us) vs = client_sockets-append us vs
client_sockets-append (shut_listener fd ∷ us) vs = client_sockets-append us vs
client_sockets-append (shut_client fd ∷ us) vs = client_sockets-append us vs
client_sockets-append (free_client_event fd ∷ us) vs = client_sockets-append us vs
client_sockets-append (free_client_timer n ∷ us) vs = client_sockets-append us vs
client_sockets-append (free_client_socket fd ∷ us) vs =
    ap (λ l. fd ∷ l) (client_sockets-append us vs)
client_sockets-append (call_close st c k ∷ us) vs = client_sockets-append us vs

pub close_calls-append :
    (us vs : List Use) → close_calls (us ++ vs) ≡ close_calls us ++ close_calls vs
close_calls-append [] vs = refl
close_calls-append (take_memory ∷ us) vs = close_calls-append us vs
close_calls-append (take_pool ∷ us) vs = close_calls-append us vs
close_calls-append (take_mutex ∷ us) vs = close_calls-append us vs
close_calls-append (take_event ∷ us) vs = close_calls-append us vs
close_calls-append (free_memory ∷ us) vs = close_calls-append us vs
close_calls-append (free_pool ∷ us) vs = close_calls-append us vs
close_calls-append (free_mutex ∷ us) vs = close_calls-append us vs
close_calls-append (free_event ∷ us) vs = close_calls-append us vs
close_calls-append (take_socket fd ∷ us) vs = close_calls-append us vs
close_calls-append (free_socket fd ∷ us) vs = close_calls-append us vs
close_calls-append (shut_listener fd ∷ us) vs = close_calls-append us vs
close_calls-append (shut_client fd ∷ us) vs = close_calls-append us vs
close_calls-append (free_client_event fd ∷ us) vs = close_calls-append us vs
close_calls-append (free_client_timer n ∷ us) vs = close_calls-append us vs
close_calls-append (free_client_socket fd ∷ us) vs = close_calls-append us vs
close_calls-append (call_close st c k ∷ us) vs =
    ap (λ l. (st, (c, k)) ∷ l) (close_calls-append us vs)

abbrev pub called : Server → List Client → List (ℤ × (ℕ × ℕ))
called s cs = if s.close_callback then map (λ c. (status_ok, (c.cid, c.context))) cs else []

timers-NoSocket : (ns : List ℕ) → client_sockets (map free_client_timer ns) ≡ []
timers-NoSocket [] = refl
timers-NoSocket (n ∷ ns) = timers-NoSocket ns

timers-NoCall : (ns : List ℕ) → close_calls (map free_client_timer ns) ≡ []
timers-NoCall [] = refl
timers-NoCall (n ∷ ns) = timers-NoCall ns

if-sockets :
    (b : Bool) (us vs : List Use)
    → client_sockets us ≡ []
    → client_sockets ((if b then us else []) ++ vs) ≡ client_sockets vs
if-sockets true us vs h = client_sockets-append us vs ∙ ap (λ l. l ++ client_sockets vs) h
if-sockets false us vs h = refl

if-calls :
    (b : Bool) (us vs : List Use)
    → close_calls us ≡ []
    → close_calls ((if b then us else []) ++ vs) ≡ close_calls vs
if-calls true us vs h = close_calls-append us vs ∙ ap (λ l. l ++ close_calls vs) h
if-calls false us vs h = refl

one_socket : (s : Server) (c : Client) → client_sockets (close_one s c) ≡ c.client_fd ∷ []
unfolding close_one
one_socket s c =
    let ns = (shutdown_requests c.req_control).1 in
    if-sockets c.recv_event (free_client_event c.client_fd ∷ []) _ refl
    ∙ client_sockets-append (map free_client_timer ns) _
    ∙ ap₂ (λ l r. l ++ (c.client_fd ∷ r)) (timers-NoSocket ns)
        (if_both (λ us. client_sockets us ≡ []) s.close_callback _ _ refl refl)

one_call : (s : Server) (c : Client) → close_calls (close_one s c) ≡ called s (c ∷ [])
unfolding close_one
one_call s c =
    let ns = (shutdown_requests c.req_control).1 in
    if-calls c.recv_event (free_client_event c.client_fd ∷ []) _ refl
    ∙ close_calls-append (map free_client_timer ns) _
    ∙ ap₂ (λ l r. l ++ r) (timers-NoCall ns) (calls s.close_callback)
  where
    calls :
        (b : Bool)
        → close_calls (if b then call_close status_ok c.cid c.context ∷ [] else [])
          ≡ (if b then (status_ok, (c.cid, c.context)) ∷ [] else [])
    calls true = refl
    calls false = refl

called-cons :
    (s : Server) (c : Client) (cs : List Client)
    → called s (c ∷ []) ++ called s cs ≡ called s (c ∷ cs)
called-cons s c cs = elim (Bool-cases s.close_callback) [ inl e ↦ rw e refl | inr e ↦ rw e refl ]

all_sockets :
    (s : Server) (cs : List Client)
    → client_sockets (close_clients s cs) ≡ map (λ c. c.client_fd) cs
unfolding close_clients
all_sockets s [] = refl
all_sockets s (c ∷ cs) =
    client_sockets-append (close_one s c) (close_clients s cs)
    ∙ ap₂ (λ l r. l ++ r) (one_socket s c) (all_sockets s cs)

no_calls : (s : Server) → called s [] ≡ []
no_calls s = if_both (λ l. l ≡ []) s.close_callback [] [] refl refl

all_calls : (s : Server) (cs : List Client) → close_calls (close_clients s cs) ≡ called s cs
unfolding close_clients
all_calls s [] = sym (no_calls s)
all_calls s (c ∷ cs) =
    close_calls-append (close_one s c) (close_clients s cs)
    ∙ ap₂ (λ l r. l ++ r) (one_call s c) (all_calls s cs)
    ∙ called-cons s c cs

end_sockets :
    (l : Listener)
    → client_sockets (end_of_clients l)
      ≡ (if l.mutex_flag then map (λ c. c.client_fd) l.server.clients else [])
end_sockets l = elim (Bool-cases l.mutex_flag) [
  | inl e ↦ rw e (
      client_sockets-append (close_clients l.server l.server.clients) (free_mutex ∷ [])
      ∙ append-nil (client_sockets (close_clients l.server l.server.clients))
      ∙ all_sockets l.server l.server.clients)
  | inr e ↦ rw e refl
]

end_calls :
    (l : Listener)
    → close_calls (end_of_clients l)
      ≡ (if l.mutex_flag then called l.server l.server.clients else [])
end_calls l = elim (Bool-cases l.mutex_flag) [
  | inl e ↦ rw e (
      close_calls-append (close_clients l.server l.server.clients) (free_mutex ∷ [])
      ∙ append-nil (close_calls (close_clients l.server l.server.clients))
      ∙ all_calls l.server l.server.clients)
  | inr e ↦ rw e refl
]

-- What af_ipcs_close does with the clients, by the flag of the mutex.
close_server-clients :
    (l : Listener)
    → (client_sockets (close_server l)
        ≡ (if l.mutex_flag then map (λ c. c.client_fd) l.server.clients else []))
      × (close_calls (close_server l)
          ≡ (if l.mutex_flag then called l.server l.server.clients else []))
unfolding close_server
close_server-clients l =
    let fd = l.server_fd in
    let rest = (if l.client_pool then free_pool ∷ [] else []) ++ (free_memory ∷ []) in
    let quiet_sockets = if-sockets l.client_pool (free_pool ∷ []) (free_memory ∷ []) refl in
    let quiet_calls = if-calls l.client_pool (free_pool ∷ []) (free_memory ∷ []) refl in
    (
      if-sockets (has_socket fd) (shut_listener fd ∷ []) _ refl
          ∙ if-sockets l.listener_event (free_event ∷ []) _ refl
          ∙ if-sockets (has_socket fd) (free_socket fd ∷ []) _ refl
          ∙ client_sockets-append (end_of_clients l) rest
          ∙ ap₂ (λ x y. x ++ y) (end_sockets l) quiet_sockets
          ∙ append-nil (if l.mutex_flag then map (λ c. c.client_fd) l.server.clients else []),
      if-calls (has_socket fd) (shut_listener fd ∷ []) _ refl
          ∙ if-calls l.listener_event (free_event ∷ []) _ refl
          ∙ if-calls (has_socket fd) (free_socket fd ∷ []) _ refl
          ∙ close_calls-append (end_of_clients l) rest
          ∙ ap₂ (λ x y. x ++ y) (end_calls l) quiet_calls
          ∙ append-nil (if l.mutex_flag then called l.server l.server.clients else []),
    )

held-append : (us vs : List Use) (h : Held) → held (us ++ vs) h ≡ held vs (held us h)
held-append [] vs h = refl
held-append (u ∷ us) vs h = held-append us vs (after_use u h)

-- What af_ipcs_close leaves of a listener that af_ipcs_open has made.
held_closed :
    (fd : ℤ) (s : Server)
    → has_socket fd ≡ true
    → held (close_server (record (listening fd true) { server = s })) one_each ≡ only_mutex
unfolding close_server
held_closed fd s h = rw h refl

-- A server that af_ipcs_open has opened on a socket, whatever clients have come since: af_ipcs_close
-- releases the block of memory, the pool, the event and the socket of the server, but it does not
-- destroy the mutex, closes the socket of no client and calls no close callback, as the flag that it
-- tests is set by nothing.
pub close_server-opened :
    (o : Opening) (prefix name : Bytes) (accept receive close : Bool) (l : Listener)
    (uses : List Use) (now : Server)
    → length prefix + length name < 128
    → has_socket o.socket ≡ true
    → open_server o prefix name accept receive close ≡ done (some l, uses)
    → let closed = close_server (record l { server = now }) in
      (held (uses ++ closed) nothing ≡ only_mutex)
      × (client_sockets closed ≡ [])
      × (close_calls closed ≡ [])
close_server-opened o prefix name accept receive close l uses now fits socket e =
    let s = opened accept receive close in
    let b =
      subst (Returns (IsBalanced o s)) e
        (open_server-IsBalanced o prefix name accept receive close fits) in
    let flag : l.mutex_flag ≡ false = ap (λ x. x.mutex_flag) b.1 in
    let (sockets, calls) = close_server-clients (record l { server = now }) in
    (
      held-append uses (close_server (record l { server = now })) nothing
          ∙ ap (held (close_server (record l { server = now }))) b.0
          ∙ ap (λ (x : Listener). held (close_server (record x { server = now })) one_each) b.1
          ∙ held_closed o.socket now socket,
      sockets ∙ ap (λ f. if f then map (λ c. c.client_fd) now.clients else []) flag,
      calls ∙ ap (λ f. if f then called now now.clients else []) flag,
    )
