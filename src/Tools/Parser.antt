-- ===== src/Tools/Parser.antt =====
-- param_parser of pkg/src/ipc_send.c, with the static variables that it sets. malloc is a parameter:
-- the address that it returns, by the number of the call.
use af_ipc.Common.{
  ℕ, zero, suc, ◌+◌, ◌*◌, ◌/◌, ◌%◌, ◌^◌, not, ◌||◌, Option, none, some, List, [], ◌∷◌, ◌++◌, ltb,
  ◌==◌, if◌then◌else◌, ℤ, Run, fault, done, ◌>>=◌, length, set,
}
use af_ipc.Rpc.Memory.{Bytes}
use af_ipc.Rpc.Params.{Param, Base, word, pointer, set_param_as_blob, set_param_as_string}
use af_ipc.Tools.Text.{hexnybble, is_xdigits, atoi}
use af_ipc.Tools.Format.{Status, send_ok, send_err, format_int_param, format_uint_param}

abbrev pub max_len : ℕ
max_len = 256

abbrev pub max_params : ℕ
max_params = 16

-- `name`, in_params and num_in_params, and how often malloc was called. `name` is NULL at first.
pub record Statics : Type 0 where
  pub name : Option Bytes
  pub in_params : List Param
  pub num_in_params : ℕ
  pub mallocs : ℕ

abbrev pub zero_param : Param
zero_param = record { base = word 0; type = 0 }

abbrev pub zero_params : ℕ → List Param
zero_params zero = []
zero_params (suc n) = zero_param ∷ zero_params n

-- The static variables of a new process.
abbrev pub new_statics : Statics
new_statics = record {
  name = none;
  in_params = zero_params max_params;
  num_in_params = 0;
  mallocs = 0;
}

-- The parser's result, its num_params, and what it leaves.
abbrev pub Parsing : Type 0
Parsing = Status × ℕ × Statics

-- A number in the entry `num_params`.
abbrev pub on_number : Statics → ℕ → Status × List Param → Parsing
on_number s num_params (send_ok, params) =
    (send_ok, num_params + 1, record s { in_params = params })
on_number s num_params (send_err, params) = (send_err, num_params, record s { in_params = params })

unfoldable pub take_uint : Statics → ℕ → ℤ → Option Bytes → Parsing
unfolding format_uint_param
take_uint s num_params size value =
    if ltb num_params max_params
    then on_number s num_params (format_uint_param size value s.in_params num_params)
    else (send_err, num_params, s)

unfoldable pub take_int : Statics → ℕ → ℤ → Option Bytes → Parsing
unfolding format_int_param
take_int s num_params size value =
    if ltb num_params max_params
    then on_number s num_params (format_int_param size value s.in_params num_params)
    else (send_err, num_params, s)

-- malloc, and the parameter that `make` sets on the block, which is filled with `content`.
unfoldable pub take_block : (ℕ → ℕ) → Statics → ℕ → Bytes → (Base → Param) → Parsing
take_block malloc s num_params content make =
    let s' = record s { mallocs = s.mallocs + 1 } in
    if not (ltb num_params max_params)
    then (send_err, num_params, s)
    else if malloc s.mallocs == 0
    then (send_err, num_params, s')
    else (
      send_ok,
      num_params + 1,
      record s' {
        in_params = set s.in_params num_params (make (pointer (malloc s.mallocs) content));
      },
    )

-- The length includes the NUL, which is copied with the string.
unfoldable pub take_string : (ℕ → ℕ) → Statics → ℕ → Bytes → Parsing
unfolding take_block
take_string malloc s num_params value =
    let len = length value + 1 in
    if ltb len 1 || ltb max_len len
    then (send_err, num_params, s)
    else take_block malloc s num_params (value ++ (0 ∷ [])) (λ b. set_param_as_string b len)

-- The loop over the pairs of digits.
abbrev pub hex_bytes : Bytes → Bytes
hex_bytes (c ∷ (d ∷ text)) = (hexnybble c * 16 + hexnybble d) % 2 ^ 8 ∷ hex_bytes text
hex_bytes (c ∷ []) = []
hex_bytes [] = []

unfoldable pub take_hex : (ℕ → ℕ) → Statics → ℕ → Bytes → Parsing
unfolding take_block
take_hex malloc s num_params text =
    if length text == 0 || not (length text % 2 == 0)
    then (send_err, num_params, s)
    else if not (is_xdigits (some text))
    then (send_err, num_params, s)
    else take_block malloc s num_params (hex_bytes text)
        (λ b. set_param_as_blob b (length text / 2))

-- strlen of the next argument, which is NULL behind the last.
abbrev pub on_value : (Bytes → Parsing) → Option Bytes → Run Parsing
on_value take none = fault
on_value take (some value) = done (take value)

-- The switch on the option's letter, with what follows it.
unfoldable pub take_option : (ℕ → ℕ) → Statics → ℕ → ℕ → Bytes → Option Bytes → Run Parsing
unfolding take_uint take_int take_string take_hex
take_option malloc s num_params letter size value =
    if letter == 100
    then done (send_ok, num_params, record s { name = value })
    else if letter == 117
    then done (take_uint s num_params (atoi size) value)
    else if letter == 105
    then done (take_int s num_params (atoi size) value)
    else if letter == 115
    then on_value (take_string malloc s num_params) value
    else if letter == 104
    then on_value (take_hex malloc s num_params) value
    else done (send_err, num_params, s)

-- One round: the argument, and the next one.
unfoldable pub take_argument : (ℕ → ℕ) → Statics → ℕ → Bytes → Option Bytes → Run Parsing
unfolding take_option
take_argument malloc s num_params (c ∷ (letter ∷ size)) value =
    if c == 45
    then take_option malloc s num_params letter size value
    else done (send_err, num_params, s)
take_argument malloc s num_params argument value = done (send_err, num_params, s)

abbrev pub after_argument : (ℕ → Statics → Run Parsing) → Parsing → Run Parsing
after_argument rest (send_ok, num_params, s) = rest num_params s
after_argument rest (send_err, num_params, s) = done (send_err, num_params, s)

-- The loop; `argv` is what is left of the arguments.
unfoldable pub take_arguments : (ℕ → ℕ) → List Bytes → ℕ → Statics → Run Parsing
unfolding take_argument
take_arguments malloc [] num_params s = done (send_ok, num_params, s)
take_arguments malloc (option ∷ []) num_params s = take_argument malloc s num_params option none
take_arguments malloc (option ∷ (value ∷ argv)) num_params s =
    take_argument malloc s num_params option (some value)
    >>= after_argument (take_arguments malloc argv)

-- The checks behind the loop.
abbrev pub with_name : ℕ → Statics → Option Bytes → Status × Statics
with_name num_params s none = (send_err, s)
with_name num_params s (some name) = (send_ok, record s { num_in_params = num_params })

abbrev pub end_of_arguments : Parsing → Status × Statics
end_of_arguments (send_err, num_params, s) = (send_err, s)
end_of_arguments (send_ok, num_params, s) = with_name num_params s s.name

-- From the loop on, with `name` set to the second argument if there is one.
abbrev pub from_name : (ℕ → ℕ) → List Bytes → Statics → Run Parsing
from_name malloc (program ∷ (server ∷ argv)) s =
    take_arguments malloc argv 0 (record s { name = some server })
from_name malloc argv s = done (send_ok, 0, s)

unfoldable pub param_parser : (ℕ → ℕ) → List Bytes → Statics → Run (Status × Statics)
unfolding take_arguments
param_parser malloc argv s =
    if not (length argv % 2 == 0)
    then done (send_err, s)
    else from_name malloc argv s >>= λ r. done (end_of_arguments r)
