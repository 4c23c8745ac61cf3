-- ===== src/Ipc/Table.antt =====
-- What the database of requests of pkg/src/af_ipc_common.c promises: a table from the IDs, which count
-- up, to the callbacks that wait for their replies; and the functions of the source on the same
-- sequence of calls.
pub mod Refine
use af_ipc.Common.{
  ℕ, ◌+◌, Bool, Option, none, some, List, [], ◌∷◌, ◌==◌, if◌then◌else◌, ◌⊎◌, inl, inr,
}
use af_ipc.Rpc.Memory.{Bytes}
use af_ipc.Ipc.Requests.{
  Errno, Request, ReqControl, find_pending, Expired, expired_call, on_timeout,
}
use af_ipc.Ipc.Send.{register}
use af_ipc.Ipc.Receive.{Delivery, reply, App, take_reply}
use af_ipc.Ipc.Receive.Replies.{quiet}

-- A request with its callback, context and timeout; a reply with an ID; a timeout of the request
-- with an ID, if it is pending.
pub data Call : Type 0 where
  ask : Option ℕ → ℕ → ℕ → Call
  arrive : ℕ → Bytes → Call
  expire : ℕ → Call

-- The ID of a request, the callbacks that a reply calls, or the callback that a timeout calls.
pub data Answer : Type 0 where
  numbered : ℕ → Answer
  failed : Errno → Answer
  called : List Delivery → Answer
  timed_out : Option Expired → Answer

-- The functions of the source. `slot` is the memory that the pool gives.
abbrev pub number_of : (Errno ⊎ ℕ) × ReqControl → Answer × ReqControl
number_of (inl e, rc) = (failed e, rc)
number_of (inr n, rc) = (numbered n, rc)

abbrev pub on_expire : Option Request → ReqControl → Answer × ReqControl
on_expire none rc = (timed_out none, rc)
on_expire (some r) rc = let (callback, rc') = on_timeout r rc in (timed_out callback, rc')

unfoldable pub take_call : Request → Call → ReqControl → Answer × ReqControl
unfolding register take_reply on_timeout
take_call slot (ask callback context timeout) rc =
    number_of (register (some slot) none rc callback context timeout)
take_call slot (arrive id payload) rc =
    let (ds, rc') = take_reply quiet id payload rc in (called ds, rc')
take_call slot (expire id) rc = on_expire (find_pending id rc.pending) rc

unfoldable pub take_calls : Request → List Call → ReqControl → List Answer
unfolding take_call
take_calls slot [] rc = []
take_calls slot (c ∷ cs) rc = let (a, rc') = take_call slot c rc in a ∷ take_calls slot cs rc'

-- The table: the number of requests so far, and the callback and context of each that is waiting.
abbrev pub Entry : Type 0
Entry = Option ℕ × ℕ

pub record Table : Type 0 where
  pub count : ℕ
  pub entries : ℕ → Option Entry

abbrev pub empty : Table
empty = record { count = 0; entries = λ id. none }

abbrev pub put_entry : ℕ → Option Entry → (ℕ → Option Entry) → ℕ → Option Entry
put_entry id e entries k = if k == id then e else entries k

abbrev pub without : ℕ → Table → Table
without id t = record t { entries = put_entry id none t.entries }

abbrev pub replies : ℕ → Bytes → Option Entry → List Delivery
replies id payload none = []
replies id payload (some (none, context)) = []
replies id payload (some (some c, context)) = reply c context id payload ∷ []

abbrev pub timeout_call : Option Entry → Option Expired
timeout_call none = none
timeout_call (some (none, context)) = none
timeout_call (some (some c, context)) = some (expired_call c context)

abbrev pub table_call : Call → Table → Answer × Table
table_call (ask callback context timeout) t = (
  numbered (t.count + 1),
  record {
    count = t.count + 1;
    entries = put_entry (t.count + 1) (some (callback, context)) t.entries;
  },
)
table_call (arrive id payload) t = (called (replies id payload (t.entries id)), without id t)
table_call (expire id) t = (timed_out (timeout_call (t.entries id)), without id t)

abbrev pub table_calls : List Call → Table → List Answer
table_calls [] t = []
table_calls (c ∷ cs) t = (table_call c t).0 ∷ table_calls cs (table_call c t).1

-- How many requests a sequence of calls makes.
abbrev pub requests : List Call → ℕ
requests [] = 0
requests (ask callback context timeout ∷ cs) = requests cs + 1
requests (arrive id payload ∷ cs) = requests cs
requests (expire id ∷ cs) = requests cs
