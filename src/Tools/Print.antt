-- ===== src/Tools/Print.antt =====
-- The text of a reply: the loop at the end of the main functions of pkg/src/ipc_send.c and
-- pkg/src/ipc_wait.c, which is the same in both.
pub mod Texts
pub mod Numbers
pub mod Blobs
use af_ipc.Common.{
  ℕ, zero, suc, ◌+◌, ◌-◌, ◌*◌, ◌%◌, ◌^◌, Bool, ◌||◌, Option, none, some, List, [], ◌∷◌, ◌++◌, ltb,
  leb, ◌==◌, if◌then◌else◌, ℤ, pos, negsuc, from_word, Run, fault, done, ◌>>=◌, length,
}
use af_ipc.Rpc.Memory.{Bytes, load, store}
use af_ipc.Rpc.Types.{
  Result, ok, err, type_is_integer, blob_size, blob_is_string, type_uint8, type_uint16, type_uint32,
  type_int8, type_int16, type_int32,
}
use af_ipc.Rpc.Params.{Param, Base, base_value, read_base}
use af_ipc.Rpc.Params.Parse.{get_params_from_buffer}
use af_ipc.Tools.Text.{unsigned_text, signed_text, hex_text}
use af_ipc.Tools.Parser.{zero_params, max_params}

-- ret_string and pos, or `goto exit` with a message.
abbrev pub Printing : Type 0
Printing = Option (Bytes × ℕ)

abbrev pub zeros : ℕ → Bytes
zeros zero = []
zeros (suc n) = 0 ∷ zeros n

abbrev pub string_size : ℕ
string_size = 256

-- The space before every parameter but the first.
unfoldable pub put_space : ℕ → Bytes → ℕ → Run Printing
put_space zero s p = done (some (s, p))
put_space (suc i) s p =
    if ltb (p + 1) (string_size - 1)
    then store s p (32 ∷ []) >>= (λ s'. done (some (s', p + 1)))
    else done none

-- The text of an integer, by its type.
unfoldable pub integer_text : ℕ → Base → Option Bytes
integer_text type base =
    if type == type_uint8 || (type == type_uint16 || type == type_uint32)
    then some (unsigned_text (base_value base % 2 ^ 32))
    else if type == type_int8 || (type == type_int16 || type == type_int32)
    then some (signed_text (from_word 32 (base_value base % 2 ^ 32)))
    else none

-- sprintf into the eleven bytes of `tmp`, and strcpy to the start of ret_string.
unfoldable pub put_number : Bytes → ℕ → Option Bytes → Run Printing
put_number s p none = done none
put_number s p (some text) =
    if leb (length text + 1) 11
    then (if ltb (p + length text) (string_size - 1)
        then store s 0 (text ++ (0 ∷ [])) >>= (λ s'. done (some (s', p + length text)))
        else done none)
    else fault

-- A string, in quotes; its length includes the NUL.
unfoldable pub put_string : Bytes → ℕ → Base → ℕ → Run Printing
put_string s p base len =
    if ltb (p + len + 2) (string_size - 1)
    then (do
      s1 ← store s p (34 ∷ [])
      text ← read_base base len
      s2 ← store s1 (p + 1) text
      s3 ← store s2 (p + 1 + len - 1) (34 ∷ [])
      s4 ← store s3 (p + 1 + len) (0 ∷ [])
      done (some (s4, p + 1)))
    else done none

-- ((uint8_t *) base)[j]
abbrev pub read_byte : Base → ℕ → Run Bytes
read_byte (Base.word n) j = fault
read_byte (Base.pointer address memory) j = load memory j 1

-- The loop over the bytes of a blob, from byte `j` on.
unfoldable pub put_bytes : Bytes → ℕ → Base → ℕ → ℕ → Run Printing
put_bytes s p base j zero = done (some (s, p))
put_bytes s p base j (suc left) = do
  v ← read_byte base j
  s' ← store s p (hex_text v ++ (0 ∷ []))
  put_bytes s' (p + 2) base (j + 1) left

unfoldable pub put_hex : Bytes → ℕ → Base → ℕ → Run Printing
unfolding put_bytes
put_hex s p base len =
    if ltb (p + len * 2) (string_size - 1) then put_bytes s p base 0 len else done none

-- One parameter. Behind a string the loop ends.
unfoldable pub put_value : (Printing → Run Printing) → Bytes → ℕ → Param → Run Printing
unfolding integer_text put_number put_string put_hex
put_value rest s p x =
    if type_is_integer x.type
    then put_number s p (integer_text x.type x.base) >>= rest
    else if blob_is_string x.type
    then put_string s p x.base (blob_size x.type)
    else put_hex s p x.base (blob_size x.type) >>= rest

abbrev pub if_printing : (Bytes → ℕ → Run Printing) → Printing → Run Printing
if_printing rest none = done none
if_printing rest (some (s, p)) = rest s p

-- The loop, from parameter `i` on, with `left` rounds to go.
unfoldable pub put_values : ℕ → Bytes → ℕ → ℕ → List Param → Run Printing
unfolding put_space put_value
put_values i s p zero xs = done (some (s, p))
put_values i s p (suc left) [] = fault
put_values i s p (suc left) (x ∷ xs) =
    put_space i s p
    >>= if_printing
        λ s' p'. put_value (if_printing λ s'' p''. put_values (i + 1) s'' p'' left xs) s' p' x

-- printf("%s\n", ret_string)
abbrev pub c_string : Bytes → Run Bytes
c_string [] = fault
c_string (zero ∷ s) = done []
c_string (suc c ∷ s) = c_string s >>= λ t. done (suc c ∷ t)

abbrev pub printed : Printing → Run (Option Bytes)
printed none = done none
printed (some (s, p)) = c_string s >>= λ t. done (some t)

-- From the return value of af_rpc_get_params_from_buffer on.
unfoldable pub print_params : Result ℕ × Option (List Param) → Run (Option Bytes)
unfolding put_values
print_params (ok n, some xs) = put_values 0 (zeros string_size) 0 n xs >>= printed
print_params (ok n, none) = fault
print_params (err e, xs) = done none

abbrev pub on_parsed : Option (Run (Result ℕ × Option (List Param))) → Run (Option Bytes)
on_parsed none = fault
on_parsed (some r) = r >>= print_params

-- From af_rpc_get_params_from_buffer on; `address` is that of outBuffer. A parser that does not return
-- counts as a fault.
unfoldable pub print_reply : ℕ → Bytes → ℤ → Run (Option Bytes)
unfolding print_params
print_reply address buf size = on_parsed (
    get_params_from_buffer (some (zero_params max_params)) (pos max_params) address (some buf) size
      Bool.true)
