-- ===== src/Rpc/Params/Parse.antt =====
-- af_rpc_get_params_from_buffer of pkg/src/af_rpc.c.
use af_ipc.Common.{
  ℕ, zero, suc, ◌+◌, ◌-◌, Bool, not, ◌||◌, ◌&&◌, Option, none, some, List, ltb, leb, ◌==◌,
  if◌then◌else◌, bit_and, bit_or, ℤ, pos, negsuc, to_word, from_word, Run, fault, done, ◌>>=◌, drop,
  set, get_elem?,
}
use mathlib.Core.Option
use af_ipc.Rpc.Memory.{Bytes, Buffer, load, getlen, from_be}
use af_ipc.Rpc.Types.{
  Result, ok, err, bad_param, bad_type, bad_tlv, wrong_num_params, get_size_of_type,
  type_is_integer, type_is_blob, type_integer_type_mask, type_uint8, type_uint16, type_uint32,
  type_int8, type_int16, type_int32,
}
use af_ipc.Rpc.Params.{word, pointer, Param}

-- The result, and the caller's array.
abbrev pub Parsed : Type 0
Parsed = Result ℕ × List Param

-- What one round leaves: the next position or an error, and the entry of the array.
abbrev pub Entry : Type 0
Entry = Result ℕ × Param

-- int8_t is sign extended to the pointer's 64 bits; uint16_t with its sign bit set to 32 bits only.
abbrev pub extend8 : ℕ → ℕ
extend8 v = to_word 64 (from_word 8 v)

abbrev pub extend16 : ℕ → ℕ
extend16 v = if bit_and v 0x8000 == 0 then v else bit_or 0xffff0000 v

unfoldable pub read_int : Bytes → ℕ → ℕ → ℕ → (ℕ → ℕ) → Run Entry
read_int buf p type size extend = load buf p size >>= λ v.
    done (ok (p + size), record { base = word (extend (from_be v)); type = type })

-- The switch on the integer type, which the entry has taken over before.
unfoldable pub read_integer : Bytes → ℕ → ℕ → Param → Run Entry
unfolding read_int
read_integer buf p type x =
    if type == type_int8
    then read_int buf p type 1 extend8
    else if type == type_uint8
    then read_int buf p type 1 (λ v. v)
    else if type == type_int16
    then read_int buf p type 2 extend16
    else if type == type_uint16
    then read_int buf p type 2 (λ v. v)
    else if type == type_int32 || type == type_uint32
    then read_int buf p type 4 (λ v. v)
    else done (err bad_type, record x { type = type })

-- `pos + size > len`, in int.
abbrev pub runs_over : ℕ → ℤ → ℕ → Bool
runs_over p (pos size) len = ltb len (p + size)
runs_over p (negsuc k) len = ltb len (p - suc k)

abbrev pub size_nat : ℤ → ℕ
size_nat (pos n) = n
size_nat (negsuc k) = 0

-- The checks of the type against the expected one, and the value. `address` is that of the buffer.
unfoldable pub read_typed : ℕ → Bytes → Bool → ℕ → ℕ → Param → Run Entry
unfolding read_integer
read_typed address buf permissive p type x =
    if type_is_integer type
    then (if not (bit_and type type_integer_type_mask == type)
        then done (err bad_type, x)
        else if not permissive && not (x.type == type)
        then done (err bad_type, x)
        else read_integer buf p type x)
    else if not permissive && not (type_is_blob x.type)
    then done (err bad_type, x)
    else done (
      ok (p + size_nat (get_size_of_type type)),
      record { base = pointer (address + p) (drop p buf); type = type },
    )

-- From the size check on, with `p` behind the type.
unfoldable pub read_value : ℕ → Bytes → ℕ → Bool → ℕ → ℕ → Param → Run Entry
unfolding read_typed
read_value address buf len permissive p type x =
    if runs_over p (get_size_of_type type) len
    then done (err bad_tlv, x)
    else read_typed address buf permissive p type x

-- One round of the loop.
unfoldable pub read_param : ℕ → Bytes → ℕ → Bool → ℕ → Param → Run Entry
unfolding read_value
read_param address buf len permissive p x =
    if leb (p + 2) len
    then getlen buf p >>= (λ type. read_value address buf len permissive (p + 2) type x)
    else done (err bad_tlv, x)

-- The checks behind the loop.
abbrev pub check_end : ℕ → ℕ → Bool → ℕ → ℕ → Result ℕ
check_end n num_params permissive param p =
    if not permissive && not (param == num_params)
    then err wrong_num_params
    else if not (p == n)
    then err bad_tlv
    else ok param

-- What follows a round: the entry is in the array, and the loop goes on unless there was an error.
abbrev pub after_round :
    (ℕ → List Param → Option (Run Parsed)) → List Param → ℕ → Run Entry → Option (Run Parsed)
after_round rest params param fault = some fault
after_round rest params param (done (err e, y)) = some (done (err e, set params param y))
after_round rest params param (done (ok q, y)) = rest q (set params param y)

-- The read of params[param], and the round.
abbrev pub on_entry :
    (ℕ → List Param → Option (Run Parsed))
    → (Param → Run Entry)
    → List Param
    → ℕ
    → Option Param
    → Option (Run Parsed)
on_entry rest round params param none = some fault
on_entry rest round params param (some x) = after_round rest params param (round x)

-- The loop, with `fuel` rounds at most (`none` if they do not do). With too many parameters the
-- result is 0.
unfoldable pub read_params :
    ℕ → ℕ → Bytes → ℕ → ℕ → ℕ → Bool → ℕ → ℕ → List Param → Option (Run Parsed)
unfolding read_param
read_params zero address buf n len num_params permissive p param params = none
read_params (suc fuel) address buf n len num_params permissive p param params =
    let rest = λ (q : ℕ) (entries : List Param).
      read_params fuel address buf n len num_params permissive q (param + 1) entries in
    if ltb p len
    then (if leb num_params param
        then some (done (ok 0, params))
        else on_entry rest (read_param address buf len permissive p) params param
            (get_elem? params param))
    else some (done (check_end n num_params permissive param p, params))

-- From `len > bufSize` on.
unfoldable pub read_all : ℕ → Bytes → ℕ → ℕ → ℕ → Bool → List Param → Option (Run Parsed)
unfolding read_params
read_all address buf n len num_params permissive params =
    if ltb n len
    then some (done (err bad_tlv, params))
    else read_params (len + 1) address buf n len num_params permissive 2 0 params

-- `params` and `buf` are pointers, which may be NULL; `address` is the address of `buf`. Each round
-- moves on, so `len + 1` rounds do.
unfoldable pub get_params_from_buffer :
    Option (List Param) → ℤ → ℕ → Buffer → ℤ → Bool → Option (Run (Result ℕ × Option (List Param)))
unfolding read_all
get_params_from_buffer (some params) (pos num_params) address (some buf) (pos n) permissive =
    if n == 0
    then some (done (err bad_param, some params))
    else if ltb n 2
    then some (done (err bad_tlv, some params))
    else elim (getlen buf 0) [
      | fault ↦ some fault
      | done len ↦
          Option.map (λ r. r >>= λ v. done (v.0, some v.1))
            (read_all address buf n len num_params permissive params)
    ]
get_params_from_buffer params num_params address buf n permissive =
    some (done (err bad_param, params))
