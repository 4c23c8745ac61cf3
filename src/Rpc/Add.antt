-- ===== src/Rpc/Add.antt =====
-- The incremental writers of pkg/src/af_rpc.c: af_rpc_init_buffer and af_rpc_add_..._to_buffer.
-- Each returns its result and the memory as it leaves it. `int` arguments are ℤ.
pub mod Contents
pub mod Safety
use af_ipc.Common.{
  ℕ, ◌+◌, ◌^◌, ◌≡◌, refl, Bool, true, false, not, ◌||◌, ◌&&◌, Option, none, some, arith, ltb, ◌==◌,
  if◌then◌else◌, ℤ, pos, negsuc, to_word, Run, fault, done, ◌>>=◌, [],
}
use af_ipc.Rpc.Memory.{Bytes, Buffer, load, store, be8, be16, be32, setlen, getlen}
use af_ipc.Rpc.Types.{
  Result, ok, err, RpcError, buffer_overflow, bad_param, bad_tlv, type_uint8, type_uint16,
  type_uint32, type_int8, type_int16, type_int32, type_blob, max_blob_size,
}

-- The result of a writer: the `int`, and the memory of `buf` afterwards.
abbrev pub Written : Type 0
Written = Result ℕ × Buffer

-- From the overflow check on, at the length `p` that the buffer holds. `src` is the read of the
-- value's bytes.
unfoldable pub append_value : ℕ → ℕ → Run Bytes → Bytes → ℕ → ℕ → Run Written
append_value type size src buf bufSize p =
    if ltb bufSize (p + 2 + size) then done (err buffer_overflow, some buf) else do
      typed ← setlen buf p type
      value ← src
      valued ← store typed (p + 2) value
      measured ← setlen valued 0 (p + 2 + size)
      done (ok (p + 2 + size), some measured)

unfoldable pub add_value : ℕ → ℕ → Run Bytes → Buffer → ℤ → Run Written
unfolding append_value
add_value type size src none bufSize = done (err bad_param, none)
add_value type size src (some buf) (negsuc k) = done (err bad_param, some buf)
add_value type size src (some buf) (pos n) =
    if n == 0
    then done (err bad_param, some buf)
    else if ltb n 2
    then done (err bad_tlv, some buf)
    else getlen buf 0 >>= append_value type size src buf n

unfoldable pub add_uint8_to_buffer : Buffer → ℤ → ℕ → Run Written
unfolding add_value
add_uint8_to_buffer buf n value = add_value type_uint8 1 (done (be8 value)) buf n

unfoldable pub add_uint16_to_buffer : Buffer → ℤ → ℕ → Run Written
unfolding add_value
add_uint16_to_buffer buf n value = add_value type_uint16 2 (done (be16 value)) buf n

unfoldable pub add_uint32_to_buffer : Buffer → ℤ → ℕ → Run Written
unfolding add_value
add_uint32_to_buffer buf n value = add_value type_uint32 4 (done (be32 value)) buf n

unfoldable pub add_int8_to_buffer : Buffer → ℤ → ℤ → Run Written
unfolding add_value
add_int8_to_buffer buf n value = add_value type_int8 1 (done (be8 (to_word 8 value))) buf n

unfoldable pub add_int16_to_buffer : Buffer → ℤ → ℤ → Run Written
unfolding add_value
add_int16_to_buffer buf n value = add_value type_int16 2 (done (be16 (to_word 16 value))) buf n

unfoldable pub add_int32_to_buffer : Buffer → ℤ → ℤ → Run Written
unfolding add_value
add_int32_to_buffer buf n value = add_value type_int32 4 (done (be32 (to_word 32 value))) buf n

-- memcpy from `blob`, skipped at size 0.
abbrev read_blob : Buffer → ℕ → Run Bytes
read_blob blob size =
    if size == 0 then done [] else elim blob [ none ↦ fault | some b ↦ load b 0 size ]

abbrev is_null : Buffer → Bool
is_null none = true
is_null (some b) = false

unfoldable pub add_blob_to_buffer : Buffer → ℤ → Buffer → ℤ → Run Written
unfolding add_value
add_blob_to_buffer buf n blob (negsuc k) = done (err bad_param, buf)
add_blob_to_buffer buf n blob (pos size) =
    if (is_null blob && not (size == 0)) || ltb max_blob_size size
    then done (err bad_param, buf)
    else add_value (type_blob size) size (read_blob blob size) buf n

-- `bufSize < LENGTH_SIZE` compares as size_t: a negative size is not below 2.
unfoldable pub init_buffer : Buffer → ℤ → Run Written
init_buffer none n = done (err bad_param, none)
init_buffer (some buf) (negsuc k) = do b ← setlen buf 0 2; done (ok 2, some b)
init_buffer (some buf) (pos n) =
    if ltb n 2 then done (err bad_param, some buf) else do b ← setlen buf 0 2; done (ok 2, some b)
