-- ===== src/Tools/Format.antt =====
-- format_int_param and format_uint_param of pkg/src/ipc_send.c.
use af_ipc.Common.{
  ℕ, Bool, true, false, ◌||◌, not, Option, none, some, List, [], ◌∷◌, ltb, ◌==◌, if◌then◌else◌, ℤ,
  pos, negsuc, set,
}
use af_ipc.Rpc.Memory.{Bytes}
use af_ipc.Rpc.Params.{
  Param, set_param_as_uint8, set_param_as_uint16, set_param_as_uint32, set_param_as_int8,
  set_param_as_int16, set_param_as_int32,
}
use af_ipc.Tools.Text.{is_digits, strtol, strtoul, to_int32, to_uint32}

-- IPC_SEND_OK and IPC_SEND_ERR
pub data Status : Type 0 where
  send_ok : Status
  send_err : Status

abbrev pub less : ℤ → ℤ → Bool
less (pos m) (pos n) = ltb m n
less (pos m) (negsuc n) = false
less (negsuc m) (pos n) = true
less (negsuc m) (negsuc n) = ltb n m

-- switch (size)
abbrev pub is_size : ℤ → ℕ → Bool
is_size (pos n) k = n == k
is_size (negsuc n) k = false

-- The end of a case: the error, or the entry of the caller's array.
abbrev pub put_entry : Bool → Param → List Param → ℕ → Status × List Param
put_entry invalid x params index =
    if invalid then (send_err, params) else (send_ok, set params index x)

unfoldable pub put_int : ℤ → ℤ → List Param → ℕ → Status × List Param
put_int size v params index =
    if is_size size 8
    then put_entry (less v (negsuc 127) || less (pos 127) v) (set_param_as_int8 v) params index
    else if is_size size 16
    then put_entry (less v (negsuc 32767) || less (pos 32767) v) (set_param_as_int16 v) params index
    else if is_size size 32
    then put_entry (less v (negsuc 2147483647) || less (pos 2147483647) v) (set_param_as_int32 v)
        params index
    else (send_err, params)

unfoldable pub put_uint : ℤ → ℕ → List Param → ℕ → Status × List Param
put_uint size v params index =
    if is_size size 8
    then put_entry (ltb v 0 || ltb 255 v) (set_param_as_uint8 v) params index
    else if is_size size 16
    then put_entry (ltb v 0 || ltb 65535 v) (set_param_as_uint16 v) params index
    else if is_size size 32
    then put_entry (ltb v 0 || ltb 4294967295 v) (set_param_as_uint32 v) params index
    else (send_err, params)

-- The digits, behind a minus sign if there is one.
abbrev pub is_integer_text : Bytes → Bool
is_integer_text [] = is_digits (some [])
is_integer_text (c ∷ s) = if c == 45 then is_digits (some s) else is_digits (some (c ∷ s))

unfoldable pub format_int_param : ℤ → Option Bytes → List Param → ℕ → Status × List Param
unfolding put_int
format_int_param size none params index = (send_err, params)
format_int_param size (some text) params index =
    if not (is_integer_text text)
    then (send_err, params)
    else put_int size (to_int32 (strtol text)) params index

unfoldable pub format_uint_param : ℤ → Option Bytes → List Param → ℕ → Status × List Param
unfolding put_uint
format_uint_param size none params index = (send_err, params)
format_uint_param size (some text) params index =
    if not (is_digits (some text))
    then (send_err, params)
    else put_uint size (to_uint32 (strtoul text)) params index
