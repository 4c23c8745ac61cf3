-- ===== src/Ipc/Send/Valid.antt =====
-- The removal of a request and the timeout of pkg/src/af_ipc_common.c keep the invariant of the
-- pending requests.
use af_ipc.Common.{ℕ, ◌≡◌, ◌≢◌, refl, none, some}
use af_ipc.Ipc.Requests.{
  Request, ReqControl, find_pending, expired_call, on_timeout, remove_request,
}
use af_ipc.Ipc.Requests.Pending.{
  IsValid, remove-ArePending, remove-AreDistinct, find-remove_self, find-remove_ne,
}

pub remove-IsValid : (rc : ReqControl) (s : ℕ) → IsValid rc → IsValid (remove_request rc s)
unfolding remove_request
remove-IsValid rc s h = record {
  last_in_range = h.last_in_range;
  all_pending = remove-ArePending s rc.pending h.all_pending;
  distinct = remove-AreDistinct s rc.pending h.distinct;
}

-- When a request with a callback times out in a state that satisfies the invariant, exactly its
-- own callback is called, with its own context, the request is no longer pending, every other one
-- is pending if it was before, and the invariant holds.
pub on_timeout_lem :
    (r : Request) (rc : ReqControl) (c other : ℕ)
    → IsValid rc
    → r.callback ≡ some c
    → r.seq_num ≢ other
    → ((on_timeout r rc).0 ≡ some (expired_call c r.context))
      × (find_pending r.seq_num (on_timeout r rc).1.pending ≡ none)
      × (find_pending other (on_timeout r rc).1.pending ≡ find_pending other rc.pending)
      × IsValid (on_timeout r rc).1
unfolding on_timeout remove_request
on_timeout_lem r rc c other h e d = (
  rw e refl,
  find-remove_self r.seq_num rc.pending h.distinct,
  find-remove_ne r.seq_num other rc.pending d,
  remove-IsValid rc r.seq_num h,
)
