-- ===== src/Rpc/Types.antt =====
-- The types of the encoding: the macros of pkg/src/af_rpc.h and af_rpc_get_size_of_type of
-- pkg/src/af_rpc.c.
pub mod Masks
use af_ipc.Common.{
  ℕ, ◌+◌, ◌*◌, ◌/◌, ◌%◌, ◌^◌, ◌≤◌, ◌<◌, ◌≡◌, refl, Bool, true, false, not, List, [], ◌∷◌, arith,
  bit_and, bit_or, ◌==◌, if◌then◌else◌, get_elem?, ℤ, pos, negsuc, Option,
}
use mathlib.Core.Option

abbrev pub type_flag_integer : ℕ
type_flag_integer = 0x8000

abbrev pub type_integer_type_mask : ℕ
type_integer_type_mask = 0xF000

abbrev pub type_flag_blob_is_string : ℕ
type_flag_blob_is_string = 0x4000

abbrev pub type_uint8 : ℕ
type_uint8 = bit_or type_flag_integer (0x1 * 2 ^ 12)

abbrev pub type_uint16 : ℕ
type_uint16 = bit_or type_flag_integer (0x2 * 2 ^ 12)

abbrev pub type_uint32 : ℕ
type_uint32 = bit_or type_flag_integer (0x3 * 2 ^ 12)

abbrev pub type_int8 : ℕ
type_int8 = bit_or type_flag_integer (0x5 * 2 ^ 12)

abbrev pub type_int16 : ℕ
type_int16 = bit_or type_flag_integer (0x6 * 2 ^ 12)

abbrev pub type_int32 : ℕ
type_int32 = bit_or type_flag_integer (0x7 * 2 ^ 12)

unfoldable pub type_is_integer : ℕ → Bool
type_is_integer t = not (bit_and t type_flag_integer == 0)

unfoldable pub type_is_blob : ℕ → Bool
type_is_blob t = bit_and t type_flag_integer == 0

-- (uint16_t) _size & 0x3fff
unfoldable pub type_blob : ℕ → ℕ
type_blob size = bit_and (size % 2 ^ 16) 0x3fff

unfoldable pub blob_size : ℕ → ℕ
blob_size t = bit_and t 0x3fff

unfoldable pub blob_is_string : ℕ → Bool
blob_is_string t = not (bit_and t type_flag_blob_is_string == 0)

unfoldable pub type_string : ℕ → ℕ
type_string size = bit_or (bit_and (size % 2 ^ 16) 0x3fff) type_flag_blob_is_string

abbrev pub max_blob_size : ℕ
max_blob_size = 16383

pub data RpcError : Type 0 where
  buffer_overflow bad_param bad_type bad_tlv type_mismatch wrong_num_params : RpcError

-- What a function returns as an `int`: a number that is not negative, or an error code.
pub data Result (A : Type 0) : Type 0 where
  ok : A → Result A
  err : RpcError → Result A

abbrev af_size_of_int_type : List ℤ
af_size_of_int_type = negsuc 0 ∷ pos 1 ∷ pos 2 ∷ pos 4 ∷ negsuc 0 ∷ pos 1 ∷ pos 2 ∷ pos 4 ∷ []

-- The index is below 8.
unfoldable pub get_size_of_type : ℕ → ℤ
unfolding type_is_integer
get_size_of_type t =
    if type_is_integer t
    then Option.get_or (get_elem? af_size_of_int_type (bit_and t 0x7000 / 2 ^ 12)) (negsuc 0)
    else pos (bit_and t 0x3fff)
