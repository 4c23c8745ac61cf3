-- ===== src/Tools/Blocks/Freed.antt =====
-- What dealloc_params of pkg/src/ipc_send.c frees after param_parser.
use af_ipc.Common.{
  if_both, ℕ, zero, suc, ◌+◌, ◌-◌, ◌<◌, ◌≡◌, refl, ap, ap₂, sym, ◌∙◌, arith, Bool, true, false,
  ◌&&◌, not, Option, none, some, List, [], ◌∷◌, ◌++◌, append_assoc, append-nil, if◌then◌else◌, ℤ,
  length, length-append, set,
}
use af_ipc.Rpc.Memory.{Bytes}
use af_ipc.Rpc.Types.{type_is_blob}
use af_ipc.Rpc.Params.{
  Param, base_value, base_is_null, set_param_as_uint8, set_param_as_uint16, set_param_as_uint32,
  set_param_as_int8, set_param_as_int16, set_param_as_int32,
}
use af_ipc.Rpc.Params.RoundTrip.{set-behind}
use af_ipc.Tools.Text.{all_digits, strtol, strtoul, to_int32, to_uint32}
use af_ipc.Tools.Format.{
  Status, send_ok, send_err, put_entry, put_int, put_uint, format_int_param, format_uint_param,
  is_size, is_integer_text,
}
use af_ipc.Tools.Parser.{Statics, Parsing, zero_param, zero_params}
use af_ipc.Tools.Blocks.{Freed, holds_block, dealloc_params, allocated, then_free}

abbrev pub blocks : List Param → List ℕ
blocks xs = (dealloc_params xs).0

and-false : (b : Bool) → (b && false) ≡ false
and-false true = refl
and-false false = refl

-- The block that a parameter holds, if it holds one.
unfoldable pub block_of : Param → List ℕ
block_of x = if holds_block x then base_value x.base ∷ [] else []

freed_if :
    (c : Bool) (bs : List ℕ) (x y : Param) (r : Freed)
    → (if c then then_free bs y r else then_free [] x r).0 ≡ (if c then bs else []) ++ r.0
freed_if true bs x y r = refl
freed_if false bs x y r = refl

blocks-cons : (x : Param) (xs : List Param) → blocks (x ∷ xs) ≡ block_of x ++ blocks xs
unfolding dealloc_params block_of
blocks-cons x xs =
    freed_if (holds_block x) (base_value x.base ∷ []) x zero_param (dealloc_params xs)

pub blocks-append : (xs ys : List Param) → blocks (xs ++ ys) ≡ blocks xs ++ blocks ys
unfolding dealloc_params
blocks-append [] ys = refl
blocks-append (x ∷ xs) ys =
    rw (blocks-cons x (xs ++ ys), blocks-cons x xs, blocks-append xs ys)
      (sym (append_assoc (block_of x) (blocks xs) (blocks ys)))

pub blocks-zero_params : (n : ℕ) → blocks (zero_params n) ≡ []
unfolding dealloc_params holds_block
blocks-zero_params zero = refl
blocks-zero_params (suc n) = blocks-zero_params n

blocks-one : (x : Param) → blocks (x ∷ []) ≡ block_of x
unfolding dealloc_params
blocks-one x = blocks-cons x [] ∙ append-nil (block_of x)

-- The first `k` entries are set, and hold the blocks that malloc has given.
abbrev pub Holds : (ℕ → ℕ) → ℕ → Statics → Type 0
Holds malloc k s =
    (front : List Param) × (s.in_params ≡ front ++ zero_params (16 - k))
    × (k ≡ length front)
    × (blocks front ≡ allocated malloc s.mallocs)

abbrev pub IsHeld : (ℕ → ℕ) → Parsing → Type 0
IsHeld malloc (status, k, s) = Holds malloc k s

-- The array after one more parameter.
pub stored :
    (malloc : ℕ → ℕ) (k m : ℕ) (s : Statics) (x : Param)
    → k < 16
    → Holds malloc k s
    → allocated malloc m ≡ allocated malloc s.mallocs ++ block_of x
    → Holds malloc (k + 1) (record s { in_params = set s.in_params k x; mallocs = m })
stored malloc k m s x room (front, e, hk, h) more = (
  front ++ x ∷ [],
  ap₂ (λ l i. set l i x) (e ∙ ap (λ n. front ++ zero_params n) (next k room)) hk
      ∙ set-behind front (zero_params (16 - (k + 1))) zero_param x,
  omega (arith, length-append front (x ∷ [])),
  blocks-append front (x ∷ []) ∙ ap₂ (λ l r. l ++ r) h (blocks-one x) ∙ sym more,
)
  where
    next : (k : ℕ) → k < 16 → 16 - k ≡ suc (16 - (k + 1))
    next k h = omega arith

-- A number is no block.
abbrev pub IsEntry : List Param → ℕ → Status × List Param → Type 0
IsEntry params k (send_ok, params') = (x : Param) × (block_of x ≡ []) × (params' ≡ set params k x)
IsEntry params k (send_err, params') = params' ≡ params

put_entry-IsEntry :
    (invalid : Bool) (x : Param) (params : List Param) (k : ℕ)
    → type_is_blob x.type ≡ false
    → IsEntry params k (put_entry invalid x params k)
unfolding block_of holds_block
put_entry-IsEntry true x params k h = refl
put_entry-IsEntry false x params k h = (x, rw (h, and-false (not (base_is_null x.base))) refl, refl)

put_uint-IsEntry :
    (size : ℤ) (v : ℕ) (params : List Param) (k : ℕ) → IsEntry params k (put_uint size v params k)
unfolding put_uint type_is_blob
put_uint-IsEntry size v params k =
    let P = IsEntry params k in
    if_both P (is_size size 8) _ _ (put_entry-IsEntry _ (set_param_as_uint8 v) params k refl) (
      if_both P (is_size size 16) _ _ (put_entry-IsEntry _ (set_param_as_uint16 v) params k refl) (
        if_both P (is_size size 32) _ _ (put_entry-IsEntry _ (set_param_as_uint32 v) params k refl)
          refl))

put_int-IsEntry :
    (size z : ℤ) (params : List Param) (k : ℕ) → IsEntry params k (put_int size z params k)
unfolding put_int type_is_blob
put_int-IsEntry size z params k =
    let P = IsEntry params k in
    if_both P (is_size size 8) _ _ (put_entry-IsEntry _ (set_param_as_int8 z) params k refl) (
      if_both P (is_size size 16) _ _ (put_entry-IsEntry _ (set_param_as_int16 z) params k refl) (
        if_both P (is_size size 32) _ _ (put_entry-IsEntry _ (set_param_as_int32 z) params k refl)
          refl))

pub format_uint-IsEntry :
    (size : ℤ) (value : Option Bytes) (params : List Param) (k : ℕ)
    → IsEntry params k (format_uint_param size value params k)
unfolding format_uint_param
format_uint-IsEntry size none params k = refl
format_uint-IsEntry size (some text) params k =
    if_both (IsEntry params k) (not (all_digits text)) _ _ refl
      (put_uint-IsEntry size (to_uint32 (strtoul text)) params k)

pub format_int-IsEntry :
    (size : ℤ) (value : Option Bytes) (params : List Param) (k : ℕ)
    → IsEntry params k (format_int_param size value params k)
unfolding format_int_param
format_int-IsEntry size none params k = refl
format_int-IsEntry size (some text) params k =
    if_both (IsEntry params k) (not (is_integer_text text)) _ _ refl
      (put_int-IsEntry size (to_int32 (strtol text)) params k)
