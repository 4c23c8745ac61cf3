-- ===== src/Tools/Arguments.antt =====
-- param_parser of pkg/src/ipc_send.c on the arguments that write a list of parameters.
pub mod Loop
use af_ipc.Common.{
  ℕ, suc, ◌+◌, ◌*◌, ◌/◌, ◌%◌, ◌^◌, ◌≤◌, ◌<◌, ◌≡◌, ◌≢◌, refl, ap, ap₂, sym, ◌∙◌, arith, false, ◌||◌,
  eq→==, Option, none, some, List, [], ◌∷◌, ◌++◌, append_assoc, append-nil, ltb, ge→ltb, lt→ltb,
  ne→==, ◌==◌, ℤ, pos, negsuc, IsSigned, Run, done, length, length-append, set,
}
use af_ipc.Rpc.Memory.{Bytes}
use af_ipc.Rpc.Items.{Item, uint8, uint16, uint32, int8, int16, int32, blob, IsItem}
use af_ipc.Rpc.Params.{
  Param, pointer, set_param_as_uint8, set_param_as_uint16, set_param_as_uint32, set_param_as_int8,
  set_param_as_int16, set_param_as_int32, set_param_as_blob,
}
use af_ipc.Rpc.Params.Placed.{IsParam, AreParams}
use af_ipc.Rpc.Params.RoundTrip.{set-behind}
use af_ipc.Tools.Text.{unsigned_text, signed_text, hex_text, strtol, strtoul, atoi}
use af_ipc.Tools.Text.Numbers.{
  AreBytes, strtoul-unsigned_text, unsigned_text-IsDigits, strtol-signed_text,
  signed_text-IsInteger, hex_bytes-hex_text, hex_text-IsXdigits, length-hex_text,
}
use af_ipc.Tools.Format.{
  send_ok, send_err, format_int_param, format_uint_param, put_int, put_uint, less,
}
use af_ipc.Tools.Parser.{
  Statics, new_statics, Parsing, take_uint, take_int, take_block, take_hex, take_option,
  take_argument, take_arguments, end_of_arguments, param_parser, hex_bytes, zero_params,
}

-- What the tool can be told: a number of its type, or a blob that is not empty.
abbrev pub IsArgument : Item → Type 0
IsArgument (blob v) = (1 ≤ length v) × (length v < 2 ^ 14) × AreBytes v
IsArgument x = IsItem x

abbrev pub AllArguments : List Item → Type 0
AllArguments [] = Unit {0}
AllArguments (x ∷ xs) = IsArgument x × AllArguments xs

-- -u8, -u16, -u32, -i8, -i16, -i32 and -h
abbrev pub option_text : Item → Bytes
option_text (uint8 v) = 45 ∷ 117 ∷ 56 ∷ []
option_text (uint16 v) = 45 ∷ 117 ∷ 49 ∷ 54 ∷ []
option_text (uint32 v) = 45 ∷ 117 ∷ 51 ∷ 50 ∷ []
option_text (int8 v) = 45 ∷ 105 ∷ 56 ∷ []
option_text (int16 v) = 45 ∷ 105 ∷ 49 ∷ 54 ∷ []
option_text (int32 v) = 45 ∷ 105 ∷ 51 ∷ 50 ∷ []
option_text (blob v) = 45 ∷ 104 ∷ []

abbrev pub value_text : Item → Bytes
value_text (uint8 v) = unsigned_text v
value_text (uint16 v) = unsigned_text v
value_text (uint32 v) = unsigned_text v
value_text (int8 v) = signed_text v
value_text (int16 v) = signed_text v
value_text (int32 v) = signed_text v
value_text (blob v) = hex_text v

abbrev pub arguments : List Item → List Bytes
arguments [] = []
arguments (x ∷ xs) = option_text x ∷ (value_text x ∷ arguments xs)

-- The numbers of a type pass the switch.
wider8 : (z : ℤ) → IsSigned 8 z → IsSigned 32 z
wider8 (pos n) k = omega arith
wider8 (negsuc n) k = omega arith

wider16 : (z : ℤ) → IsSigned 16 z → IsSigned 32 z
wider16 (pos n) k = omega arith
wider16 (negsuc n) k = omega arith

within8 : (z : ℤ) → IsSigned 8 z → (less z (negsuc 127) || less (pos 127) z) ≡ false
within8 (pos n) h = ground arith
within8 (negsuc n) h = ground arith

within16 : (z : ℤ) → IsSigned 16 z → (less z (negsuc 32767) || less (pos 32767) z) ≡ false
within16 (pos n) h = ground arith
within16 (negsuc n) h = ground arith

within32 : (z : ℤ) → IsSigned 32 z → (less z (negsuc 2147483647) || less (pos 2147483647) z) ≡ false
within32 (pos n) h = ground arith
within32 (negsuc n) h = ground arith

format_uint :
    (size : ℤ) (v : ℕ) (params : List Param) (k : ℕ)
    → v < 2 ^ 32
    → format_uint_param size (some (unsigned_text v)) params k ≡ put_uint size v params k
unfolding format_uint_param
format_uint size v params k h = rw (unsigned_text-IsDigits v, strtoul-unsigned_text v h) refl

format_int :
    (size z : ℤ) (params : List Param) (k : ℕ)
    → IsSigned 32 z
    → format_int_param size (some (signed_text z)) params k ≡ put_int size z params k
unfolding format_int_param
format_int size z params k h = rw (signed_text-IsInteger z, strtol-signed_text z h) refl

abbrev pub IsTaken : Run Parsing → Statics → ℕ → Item → Type 0
IsTaken r s k x =
    (y : Param) × (m : ℕ) × (r
      ≡ done (send_ok, k + 1, record s { in_params = set s.in_params k y; mallocs = m }))
    × IsParam x y

module _ (malloc : ℕ → ℕ) (found : (k : ℕ) → malloc k ≢ 0) where
  pub argument-IsTaken :
      (x : Item) (s : Statics) (k : ℕ)
      → IsArgument x
      → k < 16
      → IsTaken (take_argument malloc s k (option_text x) (some (value_text x))) s k x
  unfolding take_argument take_option take_uint take_int take_hex take_block put_uint put_int
  argument-IsTaken (uint8 v) s k h room = (
    set_param_as_uint8 v,
    s.mallocs,
    rw
        (
          lt→ltb k 16 room,
          format_uint (pos 8) v s.in_params k (omega arith),
          ge→ltb v 0 (omega arith),
          ge→ltb 255 v (omega arith),
        )
        refl,
    refl,
  )
  argument-IsTaken (uint16 v) s k h room = (
    set_param_as_uint16 v,
    s.mallocs,
    rw
        (
          lt→ltb k 16 room,
          format_uint (pos 16) v s.in_params k (omega arith),
          ge→ltb v 0 (omega arith),
          ge→ltb 65535 v (omega arith),
        )
        refl,
    refl,
  )
  argument-IsTaken (uint32 v) s k h room = (
    set_param_as_uint32 v,
    s.mallocs,
    rw
        (
          lt→ltb k 16 room,
          format_uint (pos 32) v s.in_params k (omega arith),
          ge→ltb v 0 (omega arith),
          ge→ltb 4294967295 v (omega arith),
        )
        refl,
    refl,
  )
  argument-IsTaken (int8 z) s k h room = (
    set_param_as_int8 z,
    s.mallocs,
    rw (lt→ltb k 16 room, format_int (pos 8) z s.in_params k (wider8 z h), within8 z h) refl,
    refl,
  )
  argument-IsTaken (int16 z) s k h room = (
    set_param_as_int16 z,
    s.mallocs,
    rw (lt→ltb k 16 room, format_int (pos 16) z s.in_params k (wider16 z h), within16 z h) refl,
    refl,
  )
  argument-IsTaken (int32 z) s k h room = (
    set_param_as_int32 z,
    s.mallocs,
    rw (lt→ltb k 16 room, format_int (pos 32) z s.in_params k h, within32 z h) refl,
    refl,
  )
  argument-IsTaken (blob v) s k (some_bytes, short, bytes) room = (
    set_param_as_blob (pointer (malloc s.mallocs) (v ++ [])) (length v),
    s.mallocs + 1,
    rw
        (
          length-hex_text v,
          ne→== (2 * length v) 0 (omega arith),
          eq→== (2 * length v % 2) 0 (omega arith),
          hex_text-IsXdigits v bytes,
          lt→ltb k 16 room,
          ne→== (malloc s.mallocs) 0 (found s.mallocs),
          hex_bytes-hex_text v bytes,
          append-nil v,
        )
        (ap
          (λ n. done (
            send_ok,
            k + 1,
            record s {
              in_params = set s.in_params k (set_param_as_blob (pointer (malloc s.mallocs) v) n);
              mallocs = s.mallocs + 1;
            },
          ))
          (omega arith)),
    (malloc s.mallocs, [], found s.mallocs, refl),
  )
