-- ===== src/Tools/Blocks/Parsed.antt =====
-- param_parser of pkg/src/ipc_send.c on any argument: the blocks that the array holds.
use af_ipc.Common.{
  if_both, ℕ, suc, ◌+◌, ◌-◌, ◌/◌, ◌%◌, ◌<◌, ◌≡◌, ◌≢◌, refl, ap, sym, ◌∙◌, arith, true, not, ◌||◌,
  Option, some, List, [], ◌∷◌, ◌++◌, append-nil, inl, inr, Bool-cases, ltb, ltb→lt, ==→eq, ==→ne,
  ne→==, ◌==◌, bit_and, bit_or, ℤ, Returns, length,
}
use af_ipc.Rpc.Memory.{Bytes}
use af_ipc.Rpc.Types.{type_is_blob}
use af_ipc.Rpc.Params.{Param, Base, pointer, set_param_as_blob, set_param_as_string}
use af_ipc.Tools.Format.{Status, send_ok, send_err, format_int_param, format_uint_param}
use af_ipc.Tools.Parser.{
  Statics, zero_params, on_number, take_uint, take_int, take_block, take_string, take_hex,
  take_option, take_argument, hex_bytes,
}
use af_ipc.Tools.Blocks.{holds_block, given, allocated}
use af_ipc.Common.Bits.{bit_or_fields}
use af_ipc.Rpc.Types.Masks.{and_0x3fff, type_is_blob_of_lt}
use af_ipc.Tools.Parser.{max_len}
use af_ipc.Tools.Text.{is_xdigits, atoi}
use af_ipc.Tools.Blocks.Freed.{
  block_of, Holds, IsHeld, stored, IsEntry, format_uint-IsEntry, format_int-IsEntry, blocks,
  blocks-append, blocks-zero_params,
}

pub freed :
    (malloc : ℕ → ℕ) (k : ℕ) (s : Statics)
    → Holds malloc k s
    → blocks s.in_params ≡ allocated malloc s.mallocs
freed malloc k s (front, e, hk, h) =
    ap blocks e
    ∙ blocks-append front (zero_params (16 - k))
    ∙ ap (λ l. blocks front ++ l) (blocks-zero_params (16 - k))
    ∙ append-nil (blocks front)
    ∙ h

module _ (malloc : ℕ → ℕ) where
  on_number-IsHeld :
      (s : Statics) (k : ℕ) (r : Status × List Param)
      → k < 16
      → Holds malloc k s
      → IsEntry s.in_params k r
      → IsHeld malloc (on_number s k r)
  on_number-IsHeld s k (send_err, params) room (front, e, hk, h) same = (front, same ∙ e, hk, h)
  on_number-IsHeld s k (send_ok, params) room h (x, no_block, e) =
      let (front, e', hk, h') = stored malloc k s.mallocs s x room h (
        sym (append-nil (allocated malloc s.mallocs))
        ∙ ap (λ l. allocated malloc s.mallocs ++ l) (sym no_block)) in
      (front, e ∙ e', hk, h')

  take_uint-IsHeld :
      (s : Statics) (k : ℕ) (size : ℤ) (value : Option Bytes)
      → Holds malloc k s
      → IsHeld malloc (take_uint s k size value)
  unfolding take_uint
  take_uint-IsHeld s k size value h = elim (Bool-cases (ltb k 16)) [
    | inr full ↦ rw full h
    | inl room ↦ rw room (
        on_number-IsHeld s k (format_uint_param size value s.in_params k) (ltb→lt k 16 room) h
          (format_uint-IsEntry size value s.in_params k))
  ]

  take_int-IsHeld :
      (s : Statics) (k : ℕ) (size : ℤ) (value : Option Bytes)
      → Holds malloc k s
      → IsHeld malloc (take_int s k size value)
  unfolding take_int
  take_int-IsHeld s k size value h = elim (Bool-cases (ltb k 16)) [
    | inr full ↦ rw full h
    | inl room ↦ rw room (
        on_number-IsHeld s k (format_int_param size value s.in_params k) (ltb→lt k 16 room) h
          (format_int-IsEntry size value s.in_params k))
  ]

  allocated_next : (m : ℕ) → allocated malloc (m + 1) ≡ allocated malloc m ++ given (malloc m)
  allocated_next m = let e : m + 1 ≡ suc m = omega arith in ap (allocated malloc) e

  -- A block in a new entry.
  block-given :
      (s : Statics) (x : Param) (content : Bytes)
      → malloc s.mallocs ≢ 0
      → x.base ≡ pointer (malloc s.mallocs) content
      → type_is_blob x.type ≡ true
      → allocated malloc (s.mallocs + 1) ≡ allocated malloc s.mallocs ++ block_of x
  unfolding block_of holds_block
  block-given s x content ne e blob =
      allocated_next s.mallocs ∙ rw (blob, e, ne→== (malloc s.mallocs) 0 ne) refl

  take_block-IsHeld :
      (s : Statics) (k : ℕ) (content : Bytes) (make : Base → Param)
      → ((b : Base) → (make b).base ≡ b)
      → ((b : Base) → type_is_blob (make b).type ≡ true)
      → Holds malloc k s
      → IsHeld malloc (take_block malloc s k content make)
  unfolding take_block
  take_block-IsHeld s k content make base blob h = elim (Bool-cases (ltb k 16)) [
    | inr full ↦ rw full h
    | inl room ↦ elim (Bool-cases (malloc s.mallocs == 0)) [
      | inl none_left ↦
          rw (room, none_left)
            (let (front, e, hk, b) = h in
              (
                front,
                e,
                hk,
                b
                    ∙ sym (
                        allocated_next s.mallocs
                        ∙ ap (λ a. allocated malloc s.mallocs ++ given a)
                            (==→eq (malloc s.mallocs) 0 none_left)
                        ∙ append-nil (allocated malloc s.mallocs)),
              ))
      | inr found ↦
          rw (room, found)
            (stored malloc k (s.mallocs + 1) s (make (pointer (malloc s.mallocs) content))
              (ltb→lt k 16 room) h
              (block-given s (make (pointer (malloc s.mallocs) content)) content
                (==→ne (malloc s.mallocs) 0 found) (base _) (blob _)))
    ]
  ]

  string-IsBlob : (n : ℕ) → type_is_blob (bit_or 0x4000 (bit_and n 0x3fff)) ≡ true
  string-IsBlob n =
      let e : bit_or 0x4000 (bit_and n 0x3fff) ≡ 0x4000 + bit_and n 0x3fff =
        bit_or_fields 14 1 (bit_and n 0x3fff) (omega (arith, and_0x3fff n)) in
      rw e (type_is_blob_of_lt (0x4000 + bit_and n 0x3fff) (omega (arith, and_0x3fff n)))

  take_string-IsHeld :
      (s : Statics) (k : ℕ) (value : Bytes)
      → Holds malloc k s
      → IsHeld malloc (take_string malloc s k value)
  unfolding take_string
  take_string-IsHeld s k value h =
      if_both (IsHeld malloc) (ltb (length value + 1) 1 || ltb max_len (length value + 1)) _ _ h (
        take_block-IsHeld s k (value ++ (0 ∷ [])) (λ b. set_param_as_string b (length value + 1))
          (λ b. refl) (λ b. string-IsBlob (length value + 1)) h)

  take_hex-IsHeld :
      (s : Statics) (k : ℕ) (text : Bytes)
      → Holds malloc k s
      → IsHeld malloc (take_hex malloc s k text)
  unfolding take_hex
  take_hex-IsHeld s k text h =
      if_both (IsHeld malloc) (length text == 0 || not (length text % 2 == 0)) _ _ h (
        if_both (IsHeld malloc) (not (is_xdigits (some text))) _ _ h (
          take_block-IsHeld s k (hex_bytes text) (λ b. set_param_as_blob b (length text / 2))
            (λ b. refl)
            (λ b.
              type_is_blob_of_lt (bit_and (length text / 2) 0x3fff)
                (omega (arith, and_0x3fff (length text / 2))))
            h))

  -- One round with a value behind the option.
  take_option-IsHeld :
      (s : Statics) (k letter : ℕ) (size value : Bytes)
      → Holds malloc k s
      → Returns (IsHeld malloc) (take_option malloc s k letter size (some value))
  unfolding take_option
  take_option-IsHeld s k letter size value h =
      let P = Returns (IsHeld malloc) in
      if_both P (letter == 100) _ _ h (
        if_both P (letter == 117) _ _ (take_uint-IsHeld s k (atoi size) (some value) h) (
          if_both P (letter == 105) _ _ (take_int-IsHeld s k (atoi size) (some value) h) (
            if_both P (letter == 115) _ _ (take_string-IsHeld s k value h)
              (if_both P (letter == 104) _ _ (take_hex-IsHeld s k value h) h))))

  pub take_argument-IsHeld :
      (s : Statics) (k : ℕ) (option value : Bytes)
      → Holds malloc k s
      → Returns (IsHeld malloc) (take_argument malloc s k option (some value))
  unfolding take_argument
  take_argument-IsHeld s k [] value h = h
  take_argument-IsHeld s k (c ∷ []) value h = h
  take_argument-IsHeld s k (c ∷ (letter ∷ size)) value h =
      if_both (Returns (IsHeld malloc)) (c == 45) _ _ (take_option-IsHeld s k letter size value h) h
