-- ===== src/Server/Listen.antt =====
-- af_ipcs_open, on_accept and af_ipcs_close of pkg/src/af_ipc_server.c. What the system calls answer is
-- a parameter, and what is acquired and released is a list in the order of the calls.
pub mod Balance
pub mod Clients
pub mod Accepting
mod Tests
use af_ipc.Common.{
  ℕ, zero, suc, ◌+◌, Bool, true, false, not, Option, none, some, List, [], ◌∷◌, ◌++◌, ltb, leb,
  ◌==◌, if◌then◌else◌, ℤ, pos, negsuc, map, Run, fault, done, ◌>>=◌, length, take,
}
use af_ipc.Rpc.Memory.{Bytes}
use af_ipc.Ipc.Requests.{shutdown_requests}
use af_ipc.Client.{has_socket, is_invalid}
use af_ipc.Server.{Client, Server, Effect, close_socket, Resources, add_client, status_ok}
use af_ipc.Server.Steps.{opened}

-- The listening side of af_ipcs_server_t. `mutex_flag` is SERVER_FLAGS_MUTEX_INITIALIZED.
pub record Listener : Type 0 where
  pub server_fd : ℤ
  pub listener_event : Bool
  pub client_pool : Bool
  pub mutex_flag : Bool
  pub server : Server

pub data Use : Type 0 where
  take_memory take_pool take_mutex take_event : Use
  take_socket : ℤ → Use
  free_memory free_pool free_mutex free_event : Use
  free_socket : ℤ → Use
  shut_listener : ℤ → Use
  shut_client : ℤ → Use
  free_client_event : ℤ → Use
  free_client_timer : ℕ → Use
  free_client_socket : ℤ → Use
  call_close : ℤ → ℕ → ℕ → Use

-- One round of the loop over the clients.
unfoldable pub close_one : Server → Client → List Use
unfolding shutdown_requests
close_one s c =
    shut_client c.client_fd
    ∷ ((if c.recv_event then free_client_event c.client_fd ∷ [] else [])
        ++ (map free_client_timer (shutdown_requests c.req_control).1
            ++ (free_client_socket c.client_fd
                ∷ (if s.close_callback then call_close status_ok c.cid c.context ∷ [] else []))))

unfoldable pub close_clients : Server → List Client → List Use
unfolding close_one
close_clients s [] = []
close_clients s (c ∷ cs) = close_one s c ++ close_clients s cs

abbrev pub end_of_clients : Listener → List Use
end_of_clients l =
    if l.mutex_flag then close_clients l.server l.server.clients ++ (free_mutex ∷ []) else []

-- af_ipcs_close. The callbacks do not call the server.
unfoldable pub close_server : Listener → List Use
unfolding close_clients
close_server l =
    (if has_socket l.server_fd then shut_listener l.server_fd ∷ [] else [])
    ++ ((if l.listener_event then free_event ∷ [] else [])
        ++ ((if has_socket l.server_fd then free_socket l.server_fd ∷ [] else [])
            ++ (end_of_clients l
                ++ ((if l.client_pool then free_pool ∷ [] else []) ++ (free_memory ∷ [])))))

-- Whether the base and the memory are there, the pool was created, what socket returns, whether
-- setsockopt, bind at an address and listen succeed, the result of pthread_mutex_init, and whether
-- the event was made and added.
pub record Opening : Type 0 where
  pub base : Bool
  pub memory : Bool
  pub pool : Bool
  pub socket : ℤ
  pub reuse : Bool
  pub bind : Bytes → Bool
  pub listen : Bool
  pub mutex : ℕ
  pub event : Bool
  pub schedule : Bool

-- The server or NULL, and what was acquired and released.
abbrev pub Opened : Type 0
Opened = Option Listener × List Use

-- From the label `error` on.
abbrev pub give_up : List Use → Listener → Opened
give_up uses l = (none, uses ++ close_server l)

-- The callbacks, which are set at the end.
abbrev pub no_server : Server
no_server = opened false false false

abbrev pub listening : ℤ → Bool → Listener
listening fd event = record {
  server_fd = fd;
  listener_event = event;
  client_pool = true;
  mutex_flag = false;
  server = no_server;
}

abbrev pub fresh : Bool → Listener
fresh pool = record {
  server_fd = negsuc 0;
  listener_event = false;
  client_pool = pool;
  mutex_flag = false;
  server = no_server;
}

-- From pthread_mutex_init on.
unfoldable pub start_listening : Opening → Server → List Use → Opened
unfolding close_server
start_listening o s uses =
    if not (o.mutex == 0)
    then give_up uses (listening o.socket false)
    else if not o.event
    then give_up (uses ++ (take_mutex ∷ [])) (listening o.socket false)
    else if not o.schedule
    then give_up (uses ++ (take_mutex ∷ (take_event ∷ []))) (listening o.socket true)
    else (
      some (record (listening o.socket true) { server = s }),
      uses ++ (take_mutex ∷ (take_event ∷ [])),
    )

-- From the construction of the path on: sprintf into ss_path, then at most 107 bytes in the address.
unfoldable pub bind_to : Opening → Bytes → Server → List Use → Run Opened
unfolding start_listening
bind_to o path s uses =
    if leb (length path + 1) 128
    then (if not (o.bind (take 107 path))
        then done (give_up uses (listening o.socket false))
        else if not o.listen
        then done (give_up uses (listening o.socket false))
        else done (start_listening o s uses))
    else fault

-- The three flags tell which callbacks are given.
unfoldable pub open_server : Opening → Bytes → Bytes → Bool → Bool → Bool → Run Opened
unfolding bind_to
open_server o prefix name accept receive close =
    if not o.base
    then done (none, [])
    else if not o.memory
    then done (none, [])
    else if not o.pool
    then done (give_up (take_memory ∷ []) (fresh false))
    else if is_invalid o.socket
    then done (give_up (take_memory ∷ (take_pool ∷ [])) (fresh true))
    else if not o.reuse
    then done (
        give_up (take_memory ∷ (take_pool ∷ (take_socket o.socket ∷ [])))
          (listening o.socket false))
    else bind_to o (prefix ++ name) (opened accept receive close)
        (take_memory ∷ (take_pool ∷ (take_socket o.socket ∷ [])))

-- FD_SETSIZE
abbrev pub fd_setsize : ℕ
fd_setsize = 1024

abbrev pub with_client :
    ℤ → Option (Option Client × Server × List Effect) → Option (Server × List Effect)
with_client fd none = none
with_client fd (some (none, s, es)) = some (s, es ++ (close_socket fd ∷ []))
with_client fd (some (some c, s, es)) = some (s, es)

-- `readable` is EV_READ, and the number what accept returns. `none`: the call does not return.
unfoldable pub on_accept : Resources → (ℕ → ℕ) → Bool → ℤ → Server → Option (Server × List Effect)
unfolding add_client
on_accept res context false fd s = some (s, [])
on_accept res context true (negsuc n) s = some (s, [])
on_accept res context true (pos fd) s =
    if ltb fd_setsize fd
    then some (s, close_socket (pos fd) ∷ [])
    else with_client (pos fd) (add_client res context (pos fd) s)
