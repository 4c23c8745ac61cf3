-- ===== src/Server/Listen/Balance.antt =====
-- What af_ipcs_open and af_ipcs_close of pkg/src/af_ipc_server.c acquire and release.
use af_ipc.Common.{
  ℕ, ◌+◌, ◌-◌, ◌<◌, ◌≡◌, refl, arith, Bool, true, false, not, ◌&&◌, ◌⊎◌, inl, inr, Bool-cases,
  ==→eq, ◌==◌, none, some, List, [], ◌∷◌, ◌++◌, if_both, le→leb, ℤ, pos, negsuc, Returns,
  if-Returns, length, length-append, take,
}
use af_ipc.Rpc.Memory.{Bytes}
use af_ipc.Client.{has_socket, is_invalid}
use af_ipc.Server.{Server}
use af_ipc.Server.Steps.{opened}
use af_ipc.Server.Listen.{
  Use, take_memory, take_pool, take_mutex, free_mutex, take_event, take_socket, free_memory,
  free_pool, free_event, free_socket, close_server, Opening, Opened, listening, start_listening,
  bind_to, open_server,
}

-- The blocks of memory, pools, mutexes, events and listening sockets that are held.
pub record Held : Type 0 where
  pub memory : ℕ
  pub pools : ℕ
  pub mutexes : ℕ
  pub events : ℕ
  pub sockets : ℕ

abbrev pub nothing : Held
nothing = record { memory = 0; pools = 0; mutexes = 0; events = 0; sockets = 0 }

abbrev pub one_each : Held
one_each = record { memory = 1; pools = 1; mutexes = 1; events = 1; sockets = 1 }

-- What is held behind a list of uses.
abbrev pub after_use : Use → Held → Held
after_use take_memory h = record h { memory = h.memory + 1 }
after_use take_pool h = record h { pools = h.pools + 1 }
after_use take_mutex h = record h { mutexes = h.mutexes + 1 }
after_use take_event h = record h { events = h.events + 1 }
after_use (take_socket fd) h = record h { sockets = h.sockets + 1 }
after_use free_memory h = record h { memory = h.memory - 1 }
after_use free_pool h = record h { pools = h.pools - 1 }
after_use free_mutex h = record h { mutexes = h.mutexes - 1 }
after_use free_event h = record h { events = h.events - 1 }
after_use (free_socket fd) h = record h { sockets = h.sockets - 1 }
after_use u h = h

abbrev pub held : List Use → Held → Held
held [] h = h
held (u ∷ us) h = held us (after_use u h)

abbrev pub only_mutex : Held
only_mutex = record nothing { mutexes = 1 }

-- A server that listens; or NULL, and nothing that is still held, or only the mutex, if it was
-- initialised and event_new or event_add failed after that.
abbrev pub IsBalanced : Opening → Server → Opened → Type 0
IsBalanced o s (some l, uses) =
    (held uses nothing ≡ one_each) × (l ≡ record (listening o.socket true) { server = s })
IsBalanced o s (none, uses) =
    (held uses nothing ≡ nothing)
    ⊎ ((held uses nothing ≡ only_mutex) × (o.mutex ≡ 0) × (o.event && o.schedule ≡ false))

valid-HasSocket : (fd : ℤ) → is_invalid fd ≡ false → has_socket fd ≡ true
valid-HasSocket (pos n) h = refl
valid-HasSocket (negsuc n) h = cc

start-IsBalanced :
    (o : Opening) (s : Server)
    → has_socket o.socket ≡ true
    → IsBalanced o s (start_listening o s (take_memory ∷ (take_pool ∷ (take_socket o.socket ∷ []))))
unfolding start_listening close_server
start-IsBalanced o s h = elim (Bool-cases (o.mutex == 0)) [
  | inr bad ↦ rw (bad, h) (inl refl)
  | inl zero' ↦
      let e : o.mutex ≡ 0 = ==→eq o.mutex 0 zero' in
      elim (Bool-cases o.event) [
        | inr off ↦ rw (zero', off, h) (inr (refl, e, refl))
        | inl event ↦ elim (Bool-cases o.schedule) [
          | inr off ↦ rw (zero', event, off, h) (inr (refl, e, refl))
          | inl scheduled ↦ rw (zero', event, scheduled) (refl, refl)
        ]
      ]
]

bind-IsBalanced :
    (o : Opening) (path : Bytes) (s : Server)
    → has_socket o.socket ≡ true
    → length path < 128
    → Returns
        (IsBalanced o s)
        (bind_to o path s (take_memory ∷ (take_pool ∷ (take_socket o.socket ∷ []))))
unfolding bind_to close_server
bind-IsBalanced o path s h fits =
    let P = Returns (IsBalanced o s) in
    rw (le→leb (length path + 1) 128 (omega arith)) (
      if_both P (not (o.bind (take 107 path))) _ _ (rw h (inl refl))
        (if_both P (not o.listen) _ _ (rw h (inl refl)) (start-IsBalanced o s h)))

-- Whatever the system calls answer, for a path that fits in its buffer with its NUL, af_ipcs_open
-- returns a server that listens on its socket with its event, its callbacks, no client and the flag of
-- the mutex clear, and holds one block of memory, one pool, one mutex, one event and one socket; or it
-- returns NULL, and has released all of these that it had acquired, except that it leaves the mutex
-- initialised if event_new or event_add fails after that.
pub open_server-IsBalanced :
    (o : Opening) (prefix name : Bytes) (accept receive close : Bool)
    → length prefix + length name < 128
    → let s = opened accept receive close in
      Returns (IsBalanced o s) (open_server o prefix name accept receive close)
unfolding open_server close_server
open_server-IsBalanced o prefix name accept receive close fits =
    let s = opened accept receive close in
    let P = Returns (IsBalanced o s) in
    if_both P (not o.base) _ _ (inl refl) (
      if_both P (not o.memory) _ _ (inl refl) (
        if_both P (not o.pool) _ _ (inl refl) (
          if-Returns (IsBalanced o s) (is_invalid o.socket) _ _ (λ _. inl refl)
            λ valid.
              let h = valid-HasSocket o.socket valid in
              if_both P (not o.reuse) _ _ (rw h (inl refl)) (
                bind-IsBalanced o (prefix ++ name) s h
                  (omega (arith, length-append prefix name))))))
