-- ===== src/Rpc/Items/Safety.antt =====
-- Every incremental writer of pkg/src/af_rpc.c on any buffer.
use af_ipc.Common.{
  refl, some, arith, inl, inr, Bool-cases, ltb, ltb→ge, ℤ, pos, to_word, Returns, length,
}
use af_ipc.Rpc.Memory.{Bytes, Buffer, be8, be16, be32}
use af_ipc.Rpc.Types.{type_uint8, type_uint16, type_uint32, type_int8, type_int16, type_int32}
use af_ipc.Rpc.Add.{
  add_uint8_to_buffer, add_uint16_to_buffer, add_uint32_to_buffer, add_int8_to_buffer,
  add_int16_to_buffer, add_int32_to_buffer, add_blob_to_buffer,
}
use af_ipc.Rpc.Add.Safety.{Fits, IsSafeWrite, add_value-safe}
use af_ipc.Rpc.Items.{Item, uint8, uint16, uint32, int8, int16, int32, blob, add_item}
use af_ipc.Rpc.Items.Write.{add_blob_lem}

add_blob-safe :
    (buf : Buffer) (n : ℤ) (v : Bytes)
    → Fits buf n
    → Returns (IsSafeWrite buf n) (add_blob_to_buffer buf n (some v) (pos (length v)))
add_blob-safe buf n v fits = elim (Bool-cases (ltb 16383 (length v))) [
  | inl large ↦ unfold add_blob_to_buffer in rw large refl
  | inr small ↦
      rw (add_blob_lem buf n v (omega (arith, ltb→ge 16383 (length v) small)))
        (add_value-safe (length v) (length v) buf n v refl fits)
]

-- No writer, on a buffer with any bytes and any value, makes an access outside the memory. If it
-- fails the memory is unchanged; else the position is inside the buffer, and the memory has its size.
pub add_item-safe :
    (x : Item) (buf : Buffer) (n : ℤ) → Fits buf n → Returns (IsSafeWrite buf n) (add_item buf n x)
unfolding add_item add_uint8_to_buffer add_uint16_to_buffer add_uint32_to_buffer add_int8_to_buffer
    add_int16_to_buffer add_int32_to_buffer
add_item-safe (uint8 v) buf n fits = add_value-safe type_uint8 1 buf n (be8 v) refl fits
add_item-safe (uint16 v) buf n fits = add_value-safe type_uint16 2 buf n (be16 v) refl fits
add_item-safe (uint32 v) buf n fits = add_value-safe type_uint32 4 buf n (be32 v) refl fits
add_item-safe (int8 v) buf n fits = add_value-safe type_int8 1 buf n (be8 (to_word 8 v)) refl fits
add_item-safe (int16 v) buf n fits =
    add_value-safe type_int16 2 buf n (be16 (to_word 16 v)) refl fits
add_item-safe (int32 v) buf n fits =
    add_value-safe type_int32 4 buf n (be32 (to_word 32 v)) refl fits
add_item-safe (blob v) buf n fits = add_blob-safe buf n v fits
