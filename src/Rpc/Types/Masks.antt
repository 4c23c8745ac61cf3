-- ===== src/Rpc/Types/Masks.antt =====
-- The type macros of pkg/src/af_rpc.h as arithmetic on the 16-bit type.
use af_ipc.Common.{ℕ, ◌*◌, ◌/◌, ◌%◌, ◌^◌, ◌≤◌, ◌<◌, ◌≡◌, true, false, arith, bit_and}
use af_ipc.Common.Bits.{bit_and_mask, bit_and_high}
use af_ipc.Rpc.Types.{type_is_integer, type_is_blob, type_blob, blob_size}

pub and_0x8000 : (t : ℕ) → bit_and t 0x8000 ≡ t / 2 ^ 15 % 2 * 2 ^ 15
and_0x8000 t = rw (bit_and_high 15 1 t) (rw (bit_and_mask 1 (t / 2 ^ 15)))

pub and_0x4000 : (t : ℕ) → bit_and t 0x4000 ≡ t / 2 ^ 14 % 2 * 2 ^ 14
and_0x4000 t = rw (bit_and_high 14 1 t) (rw (bit_and_mask 1 (t / 2 ^ 14)))

pub and_0x7000 : (t : ℕ) → bit_and t 0x7000 ≡ t / 2 ^ 12 % 8 * 2 ^ 12
and_0x7000 t = rw (bit_and_high 12 7 t) (rw (bit_and_mask 3 (t / 2 ^ 12)))

pub and_0xF000 : (t : ℕ) → bit_and t 0xF000 ≡ t / 2 ^ 12 % 16 * 2 ^ 12
and_0xF000 t = rw (bit_and_high 12 15 t) (rw (bit_and_mask 4 (t / 2 ^ 12)))

pub and_0x3fff : (t : ℕ) → bit_and t 0x3fff ≡ t % 2 ^ 14
and_0x3fff t = bit_and_mask 14 t

pub type_is_blob_of_lt : (t : ℕ) → t < 2 ^ 15 → type_is_blob t ≡ true
unfolding type_is_blob
type_is_blob_of_lt t h = ground (arith, and_0x8000 t)

pub type_is_blob_of_ge : (t : ℕ) → 2 ^ 15 ≤ t → t < 2 ^ 16 → type_is_blob t ≡ false
unfolding type_is_blob
type_is_blob_of_ge t h k = ground (arith, and_0x8000 t)

pub type_is_integer_of_lt : (t : ℕ) → t < 2 ^ 15 → type_is_integer t ≡ false
unfolding type_is_integer
type_is_integer_of_lt t h = ground (arith, and_0x8000 t)

pub type_is_integer_of_ge : (t : ℕ) → 2 ^ 15 ≤ t → t < 2 ^ 16 → type_is_integer t ≡ true
unfolding type_is_integer
type_is_integer_of_ge t h k = ground (arith, and_0x8000 t)

pub type_blob_lem : (n : ℕ) → n < 2 ^ 14 → type_blob n ≡ n
unfolding type_blob
type_blob_lem n h = omega (arith, and_0x3fff (n % 2 ^ 16))

pub blob_size_lem : (n : ℕ) → blob_size n ≡ n % 2 ^ 14
unfolding blob_size
blob_size_lem n = and_0x3fff n
