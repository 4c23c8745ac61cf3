-- ===== src/Rpc/Params.antt =====
-- af_rpc_param_t of pkg/src/af_rpc.h. `base` is a pointer-sized word that holds an integer, or a
-- pointer to a blob.
pub mod Create
pub mod Parse
pub mod Safety
pub mod Placed
pub mod Written
pub mod ReadBack
pub mod Round
pub mod RoundTrip
pub mod RoundSafety
pub mod Readable
use af_ipc.Common.{
  ℕ, ◌%◌, ◌^◌, Option, none, some, Bool, ◌==◌, ℤ, pos, negsuc, to_word, from_word, bit_and, bit_or,
  Run, fault,
}
use af_ipc.Rpc.Memory.{Bytes, load}
use af_ipc.Rpc.Types.{
  type_uint8, type_uint16, type_uint32, type_int8, type_int16, type_int32, type_flag_blob_is_string,
}

-- `word n` is the 64-bit pattern of an integer kept in `base`, NULL is `word 0`. `pointer a m` is a
-- pointer that is not NULL, with its address and the bytes from there on that may be read.
pub data Base : Type 0 where
  word : ℕ → Base
  pointer : ℕ → Bytes → Base

pub record Param : Type 0 where
  pub base : Base
  pub type : ℕ

-- (ptrdiff_t) base
abbrev pub base_value : Base → ℕ
base_value (word n) = n
base_value (pointer address memory) = address

-- base == NULL
abbrev pub base_is_null : Base → Bool
base_is_null b = base_value b == 0

-- memcpy from `base`: a word is no address of readable memory.
abbrev pub read_base : Base → ℕ → Run Bytes
read_base (word n) size = fault
read_base (pointer address memory) size = load memory 0 size

-- The macros that set a parameter; an integer is converted to ptrdiff_t.
abbrev pub set_param_as_uint8 : ℕ → Param
set_param_as_uint8 v = record { base = word v; type = type_uint8 }

abbrev pub set_param_as_uint16 : ℕ → Param
set_param_as_uint16 v = record { base = word v; type = type_uint16 }

abbrev pub set_param_as_uint32 : ℕ → Param
set_param_as_uint32 v = record { base = word v; type = type_uint32 }

abbrev pub set_param_as_int8 : ℤ → Param
set_param_as_int8 v = record { base = word (to_word 64 v); type = type_int8 }

abbrev pub set_param_as_int16 : ℤ → Param
set_param_as_int16 v = record { base = word (to_word 64 v); type = type_int16 }

abbrev pub set_param_as_int32 : ℤ → Param
set_param_as_int32 v = record { base = word (to_word 64 v); type = type_int32 }

abbrev pub set_param_as_blob : Base → ℕ → Param
set_param_as_blob b len = record { base = b; type = bit_and len 0x3fff }

abbrev pub set_param_as_string : Base → ℕ → Param
set_param_as_string b len = record {
  base = b;
  type = bit_or type_flag_blob_is_string (bit_and len 0x3fff);
}

-- The macros that read a parameter, by a cast of `base`.
abbrev pub get_uint8_param : Param → ℕ
get_uint8_param x = base_value x.base % 2 ^ 8

abbrev pub get_uint16_param : Param → ℕ
get_uint16_param x = base_value x.base % 2 ^ 16

abbrev pub get_uint32_param : Param → ℕ
get_uint32_param x = base_value x.base % 2 ^ 32

abbrev pub get_int8_param : Param → ℤ
get_int8_param x = from_word 8 (base_value x.base % 2 ^ 8)

abbrev pub get_int16_param : Param → ℤ
get_int16_param x = from_word 16 (base_value x.base % 2 ^ 16)

abbrev pub get_int32_param : Param → ℤ
get_int32_param x = from_word 32 (base_value x.base % 2 ^ 32)
