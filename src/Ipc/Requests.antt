-- ===== src/Ipc/Requests.antt =====
-- The database of pending requests of pkg/src/af_ipc_common.c.
pub mod Ids
pub mod Pending
use af_ipc.Common.{
  ℕ, ◌+◌, ◌*◌, ◌-◌, ◌^◌, Bool, true, false, Option, none, some, List, [], ◌∷◌, bit_and, ◌==◌,
  if◌then◌else◌, ℤ, negsuc,
}
use af_ipc.Rpc.Memory.{Bytes}

-- The errno values that the library sets itself, and those of the calls that it makes.
pub data Errno : Type 0 where
  einval enomem enospc enoent : Errno
  system : ℕ → Errno

-- af_ipc_request_t. `event` tells whether the timeout event exists; a callback and its context are
-- numbers that name them. The back pointer req_control is to the structure that holds the request.
pub record Request : Type 0 where
  pub seq_num : ℕ
  pub event : Bool
  pub timeout_val : ℕ
  pub callback : Option ℕ
  pub context : ℕ

-- af_ipc_req_control_t. `pool` tells whether reqPool is not NULL.
pub record ReqControl : Type 0 where
  pub last_seq_id : ℕ
  pub mutex_created : Bool
  pub pending : List Request
  pub pool : Bool

-- The fresh request is put in front. `slot` is what af_mempool_alloc returned: NULL, or memory
-- that may hold an old request.
unfoldable pub find_unused_request : Option Request → ReqControl → Bool × ReqControl
find_unused_request none rc = (false, rc)
find_unused_request (some old) rc = (true, record rc { pending = old ∷ rc.pending })

unfoldable pub remove_pending : ℕ → List Request → List Request
remove_pending seq_num [] = []
remove_pending seq_num (r ∷ rs) = if r.seq_num == seq_num then rs else r ∷ remove_pending seq_num rs

-- The first request with the number is removed; its memory goes back to the pool.
unfoldable pub remove_request : ReqControl → ℕ → ReqControl
unfolding remove_pending
remove_request rc seq_num = record rc { pending = remove_pending seq_num rc.pending }

unfoldable pub find_pending : ℕ → List Request → Option Request
find_pending seq_num [] = none
find_pending seq_num (r ∷ rs) = if r.seq_num == seq_num then some r else find_pending seq_num rs

-- The next sequence ID.
unfoldable pub next_seq_id : ℕ → ℕ
next_seq_id last = let id = bit_and (last + 1) 0x7fff in if id == 0 then id + 1 else id

unfoldable pub gen_seq_id : ReqControl → ℕ × ReqControl
unfolding next_seq_id
gen_seq_id rc = (next_seq_id rc.last_seq_id, record rc { last_seq_id = next_seq_id rc.last_seq_id })

-- `pool` is whether af_mempool_create succeeded, `mutex` the result of pthread_mutex_init. NULL is
-- `none`; the old contents are cleared.
unfoldable pub init_requests : Bool → ℕ → Option ReqControl → Option Errno × ℕ × Option ReqControl
init_requests pool mutex none = (some einval, 0, none)
init_requests false mutex (some old) = (
  some enospc,
  0,
  some (record { last_seq_id = 0; mutex_created = false; pending = []; pool = false }),
)
init_requests true mutex (some old) = (
  none,
  mutex,
  some (record { last_seq_id = 0; mutex_created = mutex == 0; pending = []; pool = true }),
)

-- The events that are deleted and freed: those of the requests that have one.
unfoldable pub pending_events : List Request → List ℕ
pending_events [] = []
pending_events (r ∷ rs) = let rest = pending_events rs in if r.event then r.seq_num ∷ rest else rest

-- The state afterwards, and the events freed. The pointer to the destroyed pool stays.
unfoldable pub shutdown_requests : ReqControl → ReqControl × List ℕ
unfolding pending_events
shutdown_requests rc =
    (record rc { pending = []; mutex_created = false }, pending_events rc.pending)

-- A call of a response callback without a reply, with its arguments.
pub record Expired : Type 0 where
  pub callback : ℕ
  pub status : ℤ
  pub seq_num : ℕ
  pub rx_buffer : Option Bytes
  pub rx_size : ℕ
  pub context : ℕ

abbrev pub status_timeout : ℤ
status_timeout = negsuc 9

abbrev pub expired_call : ℕ → ℕ → Expired
expired_call callback context = record {
  callback = callback;
  status = status_timeout;
  seq_num = 0;
  rx_buffer = none;
  rx_size = 0;
  context = context;
}

-- A timeout of the pending request `r`: what is called, and the state.
unfoldable pub on_timeout : Request → ReqControl → Option Expired × ReqControl
unfolding remove_request
on_timeout r rc = (
  elim r.callback [ none ↦ none | some c ↦ some (expired_call c r.context) ],
  remove_request rc r.seq_num,
)
