-- ===== src/Rpc/Get.antt =====
-- The incremental readers of pkg/src/af_rpc.c: af_rpc_get_..._from_buffer_at_pos. Each returns its
-- result and what the caller's variable holds afterwards.
pub mod Found
pub mod Safety
use af_ipc.Common.{
  ℕ, suc, ◌+◌, ◌-◌, ◌%◌, ◌^◌, ◌≡◌, refl, Bool, true, false, not, Option, none, some, arith, ltb,
  leb, ◌==◌, if◌then◌else◌, ℤ, pos, negsuc, [], from_word, Run, fault, done, ◌>>=◌,
}
use af_ipc.Rpc.Memory.{Bytes, Buffer, load, store, getlen, from_be}
use af_ipc.Rpc.Types.{
  Result, ok, err, RpcError, bad_param, bad_tlv, bad_type, buffer_overflow, type_uint8, type_uint16,
  type_uint32, type_int8, type_int16, type_int32, type_is_blob, blob_size,
}

-- `bufSize <= LENGTH_SIZE` compares as size_t: a negative size passes.
abbrev pub too_small : ℤ → Bool
too_small (pos n) = leb n 2
too_small (negsuc k) = false

-- `len > bufSize` compares as int.
abbrev pub exceeds : ℕ → ℤ → Bool
exceeds len (pos n) = ltb n len
exceeds len (negsuc k) = true

-- `if (pos == 0) pos = LENGTH_SIZE`
abbrev pub start : ℤ → ℤ
start (pos p) = pos (if p == 0 then 2 else p)
start (negsuc k) = negsuc k

-- From `pos > len` on. A sum with a negative position wraps as size_t; if it passes the check, the
-- read is below the buffer.
unfoldable pub get_value_from : ℕ → ℕ → Bytes → ℕ → ℤ → Run (Result (ℕ × ℕ))
get_value_from type size buf len (negsuc k) =
    if ltb len ((2 ^ 64 + 2 + size - suc k) % 2 ^ 64) then done (err bad_tlv) else fault
get_value_from type size buf len (pos p) =
    if ltb len p
    then done (err bad_param)
    else if ltb len (p + 2 + size)
    then done (err bad_tlv)
    else do
      found ← getlen buf p
      if found == type
          then (do value ← load buf (p + 2) size; done (ok (from_be value, p + 2 + size)))
          else done (err bad_type)

-- The value's bits and the next position.
unfoldable pub get_value : ℕ → ℕ → Buffer → ℤ → ℤ → Run (Result (ℕ × ℕ))
unfolding get_value_from
get_value type size none bufSize p = done (err bad_param)
get_value type size (some buf) bufSize p = if too_small bufSize then done (err bad_param) else do
  len ← getlen buf 0
  if exceeds len bufSize then done (err bad_tlv) else get_value_from type size buf len (start p)

-- The caller's variable is written only on success.
abbrev pub assign : {A : Type 0} → (ℕ → A) → A → Result (ℕ × ℕ) → Result ℕ × Option A
assign read old (ok (bits, next)) = (ok next, some (read bits))
assign read old (err e) = (err e, some old)

-- The test `value == NULL` comes first.
abbrev pub get_into :
    {A : Type 0} → (ℕ → A) → Run (Result (ℕ × ℕ)) → Option A → Run (Result ℕ × Option A)
get_into read r none = done (err bad_param, none)
get_into read r (some old) = r >>= λ v. done (assign read old v)

unfoldable pub get_uint8_from_buffer_at_pos : Option ℕ → Buffer → ℤ → ℤ → Run (Result ℕ × Option ℕ)
unfolding get_value
get_uint8_from_buffer_at_pos value buf n p =
    get_into (λ v. v) (get_value type_uint8 1 buf n p) value

unfoldable pub get_uint16_from_buffer_at_pos : Option ℕ → Buffer → ℤ → ℤ → Run (Result ℕ × Option ℕ)
unfolding get_value
get_uint16_from_buffer_at_pos value buf n p =
    get_into (λ v. v) (get_value type_uint16 2 buf n p) value

unfoldable pub get_uint32_from_buffer_at_pos : Option ℕ → Buffer → ℤ → ℤ → Run (Result ℕ × Option ℕ)
unfolding get_value
get_uint32_from_buffer_at_pos value buf n p =
    get_into (λ v. v) (get_value type_uint32 4 buf n p) value

unfoldable pub get_int8_from_buffer_at_pos : Option ℤ → Buffer → ℤ → ℤ → Run (Result ℕ × Option ℤ)
unfolding get_value
get_int8_from_buffer_at_pos value buf n p =
    get_into (from_word 8) (get_value type_int8 1 buf n p) value

unfoldable pub get_int16_from_buffer_at_pos : Option ℤ → Buffer → ℤ → ℤ → Run (Result ℕ × Option ℤ)
unfolding get_value
get_int16_from_buffer_at_pos value buf n p =
    get_into (from_word 16) (get_value type_int16 2 buf n p) value

unfoldable pub get_int32_from_buffer_at_pos : Option ℤ → Buffer → ℤ → ℤ → Run (Result ℕ × Option ℤ)
unfolding get_value
get_int32_from_buffer_at_pos value buf n p =
    get_into (from_word 32) (get_value type_int32 4 buf n p) value

-- The result, the memory at `blob`, and `*blobSize`.
abbrev pub BlobRead : Type 0
BlobRead = Result ℕ × Buffer × Option ℤ

-- From the size check on, with `p` behind the type.
unfoldable pub copy_blob : Bytes → ℕ → Bytes → ℕ → ℕ → ℕ → Run BlobRead
copy_blob blob room buf len p size =
    if ltb len (p + size)
    then done (err bad_tlv, some blob, some (pos room))
    else if ltb room size
    then done (err buffer_overflow, some blob, some (pos room))
    else do
      value ← if size == 0 then done [] else load buf p size
      copied ← store blob 0 value
      done (ok (p + size), some copied, some (pos size))

-- From the read of the type on, which nothing guards: `p` may be `len` itself.
unfoldable pub get_blob_from : Bytes → ℕ → Bytes → ℕ → ℕ → Run BlobRead
unfolding copy_blob
get_blob_from blob room buf len p = do
  found ← getlen buf p
  if type_is_blob found
      then copy_blob blob room buf len (p + 2) (blob_size found)
      else done (err bad_type, some blob, some (pos room))

-- From `pos > len` on.
unfoldable pub get_blob_at : Bytes → ℕ → Bytes → ℕ → ℤ → Run BlobRead
unfolding get_blob_from
get_blob_at blob room buf len (negsuc k) = fault
get_blob_at blob room buf len (pos p) =
    if ltb len p
    then done (err bad_param, some blob, some (pos room))
    else get_blob_from blob room buf len p

unfoldable pub get_blob_with_length_from_buffer_at_pos :
    Buffer → Option ℤ → Buffer → ℤ → ℤ → Run BlobRead
unfolding get_blob_at
get_blob_with_length_from_buffer_at_pos (some blob) (some (pos (suc room))) (some buf) n p =
    if too_small n then done (err bad_param, some blob, some (pos (suc room))) else do
      len ← getlen buf 0
      if exceeds len n
          then done (err bad_tlv, some blob, some (pos (suc room)))
          else get_blob_at blob (suc room) buf len (start p)
get_blob_with_length_from_buffer_at_pos blob room buf n p = done (err bad_param, blob, room)
