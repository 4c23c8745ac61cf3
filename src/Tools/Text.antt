-- ===== src/Tools/Text.antt =====
-- The texts of pkg/src/ipc_send.c: is_digits, is_xdigits and hexnybble, and the functions of the
-- standard library that it reads and prints numbers with. A C string is the bytes before its NUL.
pub mod Numbers
use af_ipc.Common.{
  ℕ, zero, suc, ◌+◌, ◌-◌, ◌*◌, ◌/◌, ◌%◌, ◌^◌, min, Bool, true, false, ◌&&◌, ◌||◌, Option, none,
  some, List, [], ◌∷◌, ◌++◌, ltb, leb, ◌==◌, if◌then◌else◌, ℤ, pos, negsuc, to_word, from_word,
}
use af_ipc.Rpc.Memory.{Bytes}

-- isdigit and isxdigit
abbrev pub is_digit : ℕ → Bool
is_digit c = leb 48 c && leb c 57

abbrev pub is_xdigit : ℕ → Bool
is_xdigit c = is_digit c || (leb 97 c && leb c 102) || (leb 65 c && leb c 70)

abbrev pub all_digits : Bytes → Bool
all_digits [] = true
all_digits (c ∷ s) = is_digit c && all_digits s

abbrev pub all_xdigits : Bytes → Bool
all_xdigits [] = true
all_xdigits (c ∷ s) = is_xdigit c && all_xdigits s

abbrev pub is_digits : Option Bytes → Bool
is_digits none = false
is_digits (some s) = all_digits s

abbrev pub is_xdigits : Option Bytes → Bool
is_xdigits none = false
is_xdigits (some s) = all_xdigits s

abbrev pub hexnybble : ℕ → ℕ
hexnybble c =
    if leb 48 c && leb c 57
    then c - 48
    else if leb 97 c && leb c 102
    then c - 97 + 10
    else if leb 65 c && leb c 70
    then c - 65 + 10
    else 0

-- isspace
abbrev is_space : ℕ → Bool
is_space c = c == 32 || (leb 9 c && leb c 13)

abbrev pub skip_spaces : Bytes → Bytes
skip_spaces [] = []
skip_spaces (c ∷ s) = let rest = skip_spaces s in if is_space c then rest else c ∷ s

-- The number that the digits at the start of a text write, behind those that write `n`.
abbrev pub digits_value : ℕ → Bytes → ℕ
digits_value n [] = n
digits_value n (c ∷ s) =
    let rest = digits_value (n * 10 + (c - 48)) s in if is_digit c then rest else n

abbrev pub negate : ℕ → ℤ
negate zero = pos 0
negate (suc n) = negsuc n

-- A number with an optional sign.
abbrev pub signed_value : Bytes → ℤ
signed_value [] = pos 0
signed_value (c ∷ s) =
    if c == 45
    then negate (digits_value 0 s)
    else pos (if c == 43 then digits_value 0 s else digits_value 0 (c ∷ s))

-- The range of `long`.
abbrev pub saturate : ℤ → ℤ
saturate (pos n) = pos (min n (2 ^ 63 - 1))
saturate (negsuc n) = negsuc (min n (2 ^ 63 - 1))

-- In base 10, without the end pointer.
abbrev pub strtol : Bytes → ℤ
strtol s = saturate (signed_value (skip_spaces s))

-- The range of `unsigned long`; a minus sign negates in it.
abbrev saturate_unsigned : ℤ → ℕ
saturate_unsigned (pos n) = min n (2 ^ 64 - 1)
saturate_unsigned (negsuc n) = if ltb n (2 ^ 64 - 1) then 2 ^ 64 - (n + 1) else 2 ^ 64 - 1

abbrev pub strtoul : Bytes → ℕ
strtoul s = saturate_unsigned (signed_value (skip_spaces s))

-- The conversions to int32_t and uint32_t.
abbrev pub to_int32 : ℤ → ℤ
to_int32 z = from_word 32 (to_word 32 z)

abbrev pub to_uint32 : ℕ → ℕ
to_uint32 n = n % 2 ^ 32

-- (int) strtol(s, NULL, 10)
abbrev pub atoi : Bytes → ℤ
atoi s = to_int32 (strtol s)

-- `digits` digits at most.
abbrev pub decimal_digits : ℕ → ℕ → Bytes
decimal_digits zero n = []
decimal_digits (suc digits) n =
    let rest = decimal_digits digits (n / 10) in
    if ltb n 10 then (48 + n) ∷ [] else rest ++ ((48 + n % 10) ∷ [])

-- What sprintf writes for %u and %d, whose arguments have 32 bits.
unfoldable pub unsigned_text : ℕ → Bytes
unsigned_text n = decimal_digits 10 n

abbrev pub signed_text : ℤ → Bytes
signed_text (pos n) = unsigned_text n
signed_text (negsuc n) = 45 ∷ unsigned_text (n + 1)

-- %02x
abbrev pub hex_digit : ℕ → ℕ
hex_digit d = if ltb d 10 then 48 + d else 87 + d

abbrev pub byte_text : ℕ → Bytes
byte_text b = hex_digit (b / 16) ∷ hex_digit (b % 16) ∷ []

abbrev pub hex_text : Bytes → Bytes
hex_text [] = []
hex_text (b ∷ s) = byte_text b ++ hex_text s
