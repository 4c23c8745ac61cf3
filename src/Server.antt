-- ===== src/Server.antt =====
-- pkg/src/af_ipc_server.c: the list of clients, a client's beginning and its end. Each function is one
-- step on the state of the server, since it holds the mutex of the clients or runs in the event loop.
pub mod Ids
pub mod Send
pub mod Valid
pub mod Accept
pub mod Closed
pub mod Receive
pub mod Steps
pub mod Listen
mod Tests
use af_ipc.Common.{
  ℕ, zero, suc, ◌+◌, ◌%◌, ◌^◌, Bool, true, false, not, ◌&&◌, Option, none, some, List, [], ◌∷◌,
  ◌++◌, ◌==◌, if◌then◌else◌, ℤ, pos, negsuc, map,
}
use af_ipc.Ipc.Requests.{Errno, ReqControl, init_requests, shutdown_requests}
use af_ipc.Ipc.Send.{Message}
use af_ipc.Ipc.Receive.{Delivery}

-- af_ipcs_client_t. `recv_event` tells whether the event exists; the back pointer is to the server
-- that holds the client.
pub record Client : Type 0 where
  pub client_fd : ℤ
  pub cid : ℕ
  pub recv_event : Bool
  pub req_control : ReqControl
  pub context : ℕ

-- af_ipcs_server_t. The callbacks are told to exist or not.
pub record Server : Type 0 where
  pub clients : List Client
  pub last_cid : ℕ
  pub accept_callback : Bool
  pub receive_callback : Bool
  pub close_callback : Bool

-- What the server does to the outside. A file descriptor stands for the socket and its event;
-- `sent` is a message of which sendmsg took bytes.
pub data Effect : Type 0 where
  sent : ℤ → Message → Effect
  shut_read : ℤ → Effect
  free_event : ℤ → Effect
  free_timer : ℕ → Effect
  close_socket : ℤ → Effect
  call_accept : ℕ → Effect
  call_close : ℤ → ℕ → ℕ → Effect
  call_receive : ℕ → Delivery → Effect

-- The search of get_next_cid.
unfoldable pub is_used : ℕ → List Client → Bool
is_used cid [] = false
is_used cid (c ∷ cs) = let rest = is_used cid cs in if c.cid == cid then true else rest

unfoldable pub find_client_by_cid : ℕ → List Client → Option Client
find_client_by_cid cid [] = none
find_client_by_cid cid (c ∷ cs) =
    let rest = find_client_by_cid cid cs in if c.cid == cid then some c else rest

-- lastCid++, and once more if it is 0.
unfoldable pub next_cid : ℕ → ℕ
next_cid last = let c = (last + 1) % 2 ^ 16 in if c == 0 then c + 1 else c

-- The loop of get_next_cid, with `fuel` rounds at most.
unfoldable pub next_unused : ℕ → ℕ → List Client → Option ℕ
unfolding is_used next_cid
next_unused zero last cs = none
next_unused (suc fuel) last cs =
    let c = next_cid last in
    let rest = next_unused fuel c cs in if is_used c cs then rest else some c

-- There are 65535 IDs: if that many rounds do not find one that is not used, none do (`none`).
unfoldable pub get_next_cid : Server → Option ℕ
unfolding next_unused
get_next_cid s = next_unused 65535 s.last_cid s.clients

-- What the calls out of the repository answer for a new client: af_mempool_alloc,
-- af_mempool_create and pthread_mutex_init, and event_new.
pub record Resources : Type 0 where
  pub alloc : Bool
  pub pool : Bool
  pub mutex : ℕ
  pub event : Bool

-- The memory that memset has cleared.
abbrev pub cleared : ReqControl
cleared = record { last_seq_id = 0; mutex_created = false; pending = []; pool = false }

-- `client` with its requests set up goes to the head of the list; a client whose requests could not
-- be set up is dropped. An error is `some`, as -1 is below 0.
unfoldable pub enter : Option Errno × ℕ × Option ReqControl → ℕ → Server → Option Client × Server
enter (none, mutex, some rc) cid s =
    let c : Client = record {
      client_fd = pos 0;
      cid = cid;
      recv_event = false;
      req_control = rc;
      context = 0;
    } in
    (some c, record s { clients = c ∷ s.clients; last_cid = cid })
enter (none, mutex, none) cid s = (none, record s { last_cid = cid })
enter (some e, mutex, rc) cid s = (none, record s { last_cid = cid })

-- `none`: the loop for an ID does not end.
unfoldable pub alloc_and_init_client : Resources → Server → Option (Option Client × Server)
unfolding get_next_cid init_requests enter
alloc_and_init_client res s =
    if res.alloc
    then elim (get_next_cid s) [
      | none ↦ none
      | some cid ↦ some (enter (init_requests res.pool res.mutex (some cleared)) cid s)
    ]
    else some (none, s)

-- The first client in the list is set up.
abbrev pub set_head : (Client → Client) → List Client → List Client
set_head f [] = []
set_head f (c ∷ cs) = f c ∷ cs

-- `context` is what the accept callback stores for a client ID.
abbrev pub accepted : (ℕ → ℕ) → ℤ → Server → Client → Client
accepted context fd s c = record c {
  client_fd = fd;
  recv_event = true;
  context = if s.accept_callback then context c.cid else c.context;
}

-- From the new client on.
unfoldable pub set_up :
    Bool
    → (ℕ → ℕ)
    → ℤ
    → Server
    → Option (Option Client × Server)
    → Option (Option Client × Server × List Effect)
set_up event context fd s none = none
set_up event context fd s (some (none, s')) = some (none, s', [])
set_up true context fd s (some (some c, s')) = some (
  some (accepted context fd s c),
  record s' { clients = set_head (accepted context fd s) s'.clients },
  if s.accept_callback then call_accept c.cid ∷ [] else [],
)
set_up false context fd s (some (some c, s')) = none

-- `none`: the call does not return. That is so as well if the receive event cannot be made: then
-- close_client locks the mutex that add_client holds.
unfoldable pub add_client :
    Resources → (ℕ → ℕ) → ℤ → Server → Option (Option Client × Server × List Effect)
unfolding alloc_and_init_client set_up
add_client res context fd s = set_up res.event context fd s (alloc_and_init_client res s)

abbrev pub status_ok : ℤ
status_ok = pos 0

abbrev pub status_error : ℤ
status_error = negsuc 0

-- AF_IPC_STATUS_DONT_CALL_CALLBACK
abbrev pub is_silent : ℤ → Bool
is_silent (pos n) = n == 1
is_silent (negsuc n) = false

unfoldable pub remove_client : ℕ → List Client → List Client
remove_client cid [] = []
remove_client cid (c ∷ cs) =
    let rest = remove_client cid cs in if c.cid == cid then cs else c ∷ rest

-- What is freed, closed and called for a client that is closed.
unfoldable pub close_effects : ℤ → Client → Server → List Effect
unfolding shutdown_requests
close_effects status c s =
    shut_read c.client_fd
    ∷ ((if c.recv_event then free_event c.client_fd ∷ [] else [])
        ++ (map free_timer (shutdown_requests c.req_control).1
            ++ (close_socket c.client_fd
                ∷ (if not (is_silent status) && s.close_callback
                    then call_close status c.cid c.context ∷ []
                    else []))))

-- A client is known by its ID.
unfoldable pub close_client : ℤ → Client → Server → Server × List Effect
unfolding remove_client close_effects
close_client status c s =
    (record s { clients = remove_client c.cid s.clients }, close_effects status c s)

-- af_ipcs_close_client: 0, or -1 if there is no such client.
unfoldable pub close_client_by_cid : ℕ → Server → Bool × Server × List Effect
unfolding find_client_by_cid close_client
close_client_by_cid cid s = elim (find_client_by_cid cid s.clients) [
  | none ↦ (false, s, [])
  | some c ↦ let (s', es) = close_client status_ok c s in (true, s', es)
]
