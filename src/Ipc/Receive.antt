-- ===== src/Ipc/Receive.antt =====
-- af_ipc_handle_receive_message of pkg/src/af_ipc_common.c. The application's callbacks may change
-- the database of requests (by sending more): their effect is the parameter `app`.
pub mod Deliveries
pub mod Total
pub mod Stream
pub mod Replies
pub mod Exchange
pub mod First
use af_ipc.Common.{
  ℕ, zero, suc, ◌+◌, ◌*◌, ◌/◌, ◌%◌, ◌-◌, ◌^◌, Bool, true, false, ◌||◌, Option, none, some, List, [],
  ◌∷◌, ◌++◌, ltb, leb, ◌==◌, if◌then◌else◌, take, drop, length,
}
use mathlib.Core.Option
use af_ipc.Rpc.Memory.{Bytes}
use af_ipc.Ipc.SeqNum.{get_seq_id, seqnum_is_new_request, tag_client}
use af_ipc.Ipc.Requests.{Request, ReqControl, remove_request, find_pending}
use af_ipc.Ipc.Send.{msghdr_len, Message}

-- A call of the application: of the receive callback, or of a response callback with its context.
-- The status is 0 in both.
pub data Delivery : Type 0 where
  incoming : ℕ → Bytes → Delivery
  reply : ℕ → ℕ → ℕ → Bytes → Delivery

abbrev pub App : Type 0
App = Delivery → ReqControl → ReqControl

-- The host is little endian; the last two bytes of the header are padding.
abbrev from_le : Bytes → ℕ
from_le [] = 0
from_le (x ∷ xs) = x + 256 * from_le xs

abbrev pub header_seq_num : Bytes → ℕ → ℕ
header_seq_num buf p = from_le (take 4 (drop p buf))

abbrev pub header_len : Bytes → ℕ → ℕ
header_len buf p = from_le (take 2 (drop (p + 4) buf))

-- The response callback is called after the request is gone.
unfoldable pub answer : App → ℕ → Bytes → Request → ReqControl → List Delivery × ReqControl
answer app seq_id payload r rc = elim r.callback [
  | none ↦ ([], rc)
  | some c ↦ let d = reply c r.context seq_id payload in (d ∷ [], app d rc)
]

-- A reply: the pending request with its number is taken off.
unfoldable pub take_reply : App → ℕ → Bytes → ReqControl → List Delivery × ReqControl
unfolding answer remove_request
take_reply app seq_id payload rc = elim (find_pending seq_id rc.pending) [
  | none ↦ ([], rc)
  | some r ↦ answer app seq_id payload r (remove_request rc seq_id)
]

-- A request or an unsolicited message, for the receive callback if there is one.
unfoldable pub take_incoming : App → Bool → ℕ → ℕ → Bytes → ReqControl → List Delivery × ReqControl
take_incoming app has_callback client_id seq_id payload rc =
    let d = incoming (tag_client client_id seq_id) payload in
    if has_callback then (d ∷ [], app d rc) else ([], rc)

unfoldable pub dispatch : App → Bool → ℕ → ℕ → Bytes → ReqControl → List Delivery × ReqControl
unfolding take_incoming take_reply
dispatch app has_callback client_id seq_id payload rc =
    if seq_id == 0 || seqnum_is_new_request seq_id
    then take_incoming app has_callback client_id seq_id payload rc
    else take_reply app seq_id payload rc

abbrev pub after : List Delivery → List Delivery × ReqControl → List Delivery × ReqControl
after ds (es, rc) = (ds ++ es, rc)

-- The loop from position `p` on, with `fuel` rounds at most.
unfoldable pub receive_from :
    ℕ → App → Bool → ℕ → Bytes → ℕ → ReqControl → Option (List Delivery × ReqControl)
unfolding dispatch
receive_from zero app has_callback client_id buf p rc = none
receive_from (suc fuel) app has_callback client_id buf p rc =
    let len = length buf in
    let m = header_len buf p in
    let (ds, rc') =
      dispatch app has_callback client_id (get_seq_id (header_seq_num buf p))
        (take (m - msghdr_len) (drop (p + msghdr_len) buf)) rc in
    let rest = receive_from fuel app has_callback client_id buf (p + m) rc' in
    if ltb p len
    then (if leb len (p + msghdr_len)
        then some ([], rc)
        else if ltb len (p + m) || ltb m msghdr_len
        then some ([], rc)
        else Option.map (after ds) rest)
    else some ([], rc)

-- `buf` is what recv returned. Each round moves on, so one more round than bytes does.
unfoldable pub handle_receive_message :
    App → Bool → ℕ → Bytes → ReqControl → Option (List Delivery × ReqControl)
unfolding receive_from
handle_receive_message app has_callback client_id buf rc =
    receive_from (length buf + 1) app has_callback client_id buf 0 rc
