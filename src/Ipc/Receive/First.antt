-- ===== src/Ipc/Receive/First.antt =====
-- The first message of a packet that af_ipc_handle_receive_message of pkg/src/af_ipc_common.c reads.
use af_ipc.Common.{ℕ, ◌-◌, ◌<◌, ◌≤◌, ◌≡◌, ◌||◌, ◌==◌, true, length, take, drop}
use af_ipc.Rpc.Memory.{Bytes}
use af_ipc.Ipc.SeqNum.{get_seq_id, seqnum_is_new_request, tag_client}
use af_ipc.Ipc.Send.{msghdr_len}
use af_ipc.Ipc.Receive.{Delivery, incoming, header_len, header_seq_num}

abbrev pub first_seq_id : Bytes → ℕ
first_seq_id buf = get_seq_id (header_seq_num buf 0)

-- What the receive callback is called with.
abbrev pub first_incoming : ℕ → Bytes → Delivery
first_incoming client_id buf =
    incoming (tag_client client_id (first_seq_id buf))
      (take (header_len buf 0 - msghdr_len) (drop 8 buf))

-- A packet starts with a whole request or unsolicited message.
pub record StartsIncoming (buf : Bytes) : Type 0 where
  pub has_body : 8 < length buf
  pub has_header : 8 ≤ header_len buf 0
  pub inside : header_len buf 0 ≤ length buf
  pub for_callback : (first_seq_id buf == 0 || seqnum_is_new_request (first_seq_id buf)) ≡ true
