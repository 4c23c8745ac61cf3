-- ===== src/Rpc/Params/Create.antt =====
-- af_rpc_create_buffer_with_params of pkg/src/af_rpc.c.
use af_ipc.Common.{
  ℕ, zero, suc, ◌+◌, ◌%◌, ◌^◌, ◌||◌, Option, some, List, [], ◌∷◌, ltb, ◌==◌, if◌then◌else◌, bit_and,
  ℤ, pos, negsuc, Run, fault, done, ◌>>=◌,
}
use af_ipc.Rpc.Memory.{Bytes, Buffer, store, setlen, be8, be16, be32}
use af_ipc.Rpc.Types.{
  Result, ok, err, buffer_overflow, bad_param, bad_type, get_size_of_type, type_is_integer,
  type_integer_type_mask, type_uint8, type_uint16, type_uint32, type_int8, type_int16, type_int32,
  max_blob_size,
}
use af_ipc.Rpc.Add.{Written}
use af_ipc.Rpc.Params.{Base, Param, base_value, base_is_null, read_base}

-- The next position, or an error; and the memory.
abbrev pub Placed : Type 0
Placed = Result ℕ × Bytes

unfoldable pub put : Bytes → ℕ → Bytes → ℕ → Run Placed
put buf p v size = store buf p v >>= λ b. done (ok (p + size), b)

-- The switch on the integer type.
unfoldable pub put_integer : Bytes → ℕ → ℕ → ℕ → Run Placed
unfolding put
put_integer buf p type value =
    if type == type_int8 || type == type_uint8
    then put buf p (be8 value) 1
    else if type == type_int16 || type == type_uint16
    then put buf p (be16 value) 2
    else if type == type_int32 || type == type_uint32
    then put buf p (be32 value) 4
    else done (err bad_type, buf)

unfoldable pub put_blob : Bytes → ℕ → ℕ → Base → Run Placed
put_blob buf p size base =
    if size == 0
    then done (ok p, buf)
    else if base_is_null base
    then done (err bad_param, buf)
    else do value ← read_base base size; b ← store buf p value; done (ok (p + size), b)

-- From the overflow check on, for a type of size `size`.
unfoldable pub put_sized : Bytes → ℕ → ℕ → ℕ → ℕ → Base → Run Placed
unfolding put_integer put_blob
put_sized buf n p type size base =
    if ltb n (p + 2 + size)
    then done (err buffer_overflow, buf)
    else if type_is_integer type
    then (if bit_and type type_integer_type_mask == type
        then setlen buf p type >>= (λ b. put_integer b (p + 2) type (base_value base))
        else done (err bad_type, buf))
    else setlen buf p type >>= (λ b. put_blob b (p + 2) size base)

-- One round of the loop.
unfoldable pub put_param : Bytes → ℕ → ℕ → Param → Run Placed
unfolding put_sized
put_param buf n p x = elim (get_size_of_type (x.type % 2 ^ 16)) [
  | negsuc k ↦ done (err bad_type, buf)
  | pos size ↦
      if ltb max_blob_size size
      then done (err bad_type, buf)
      else put_sized buf n p (x.type % 2 ^ 16) size x.base
]

-- The loop, with `left` rounds to go; the list is what is left of the caller's array.
unfoldable pub put_params : Bytes → ℕ → ℕ → List Param → ℕ → Run Placed
unfolding put_param
put_params buf n p xs zero = done (ok p, buf)
put_params buf n p [] (suc left) = fault
put_params buf n p (x ∷ xs) (suc left) = put_param buf n p x >>= λ (r, b). elim r [
  | ok q ↦ put_params b n q xs left
  | err e ↦ done (err e, b)
]

-- setlen at the end, unless an error left the loop.
abbrev finish : Placed → Run Written
finish (ok p, b) = setlen b 0 p >>= λ b'. done (ok p, some b')
finish (err e, b) = done (err e, some b)

unfoldable pub create_buffer_with_params : Buffer → ℤ → Option (List Param) → ℤ → Run Written
unfolding put_params
create_buffer_with_params (some buf) (pos n) (some params) (pos num_params) =
    if n == 0
    then done (err bad_param, some buf)
    else if ltb n 2
    then done (err buffer_overflow, some buf)
    else put_params buf n 2 params num_params >>= finish
create_buffer_with_params buf n params num_params = done (err bad_param, buf)
