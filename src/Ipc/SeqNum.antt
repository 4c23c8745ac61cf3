-- ===== src/Ipc/SeqNum.antt =====
-- The sequence numbers of pkg/src/af_ipc_prv.h: 16 bits of client ID, the bit of a new request, and
-- 15 bits of sequence ID. A `uint32_t` is a number below 2 ^ 32.
pub mod Masks
use af_ipc.Common.{ℕ, ◌+◌, ◌-◌, ◌*◌, ◌/◌, ◌%◌, ◌^◌, Bool, not, bit_and, bit_or, ◌==◌}

unfoldable pub get_client_id : ℕ → ℕ
get_client_id seq_num = seq_num / 2 ^ 16

unfoldable pub get_seq_id : ℕ → ℕ
get_seq_id seq_num = bit_and seq_num 0xFFFF

abbrev pub seqnum_new_request_mask : ℕ
seqnum_new_request_mask = 1 * 2 ^ 15

unfoldable pub seqnum_is_new_request : ℕ → Bool
seqnum_is_new_request seq_num = not (bit_and seq_num seqnum_new_request_mask == 0)

unfoldable pub build_seqnum : ℕ → ℕ → ℕ
build_seqnum client_id seq_id = bit_or (client_id * 2 ^ 16) seq_id

-- The result is a uint16_t.
unfoldable pub get_client_id_from_seq_num : ℕ → ℕ
unfolding get_client_id
get_client_id_from_seq_num seq_num = get_client_id seq_num % 2 ^ 16

unfoldable pub seq_num_is_request : ℕ → Bool
unfolding get_seq_id
seq_num_is_request seq_num = not (get_seq_id seq_num == 0)

-- The number that goes into the header of a new request.
unfoldable pub mark_new_request : ℕ → ℕ
mark_new_request seq_num = bit_or seq_num seqnum_new_request_mask

-- What the receiver makes of the sequence ID of a message that is no reply: it puts in the client
-- ID, and masks off the bit of a new request.
unfoldable pub tag_client : ℕ → ℕ → ℕ
tag_client client_id seq_id =
    bit_and (bit_or seq_id (client_id * 2 ^ 16 % 2 ^ 32)) (2 ^ 32 - 1 - seqnum_new_request_mask)
