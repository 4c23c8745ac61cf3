-- ===== src/Rpc/Params/ReadBack.antt =====
-- af_rpc_get_params_from_buffer of pkg/src/af_rpc.c on a buffer that contains encoded parameters.
use af_ipc.Common.{
  ℕ, ◌+◌, ◌%◌, ◌^◌, ◌≤◌, ◌<◌, ◌≡◌, refl, List, [], ◌∷◌, ◌++◌, arith, Bool, true, false, not, ◌&&◌,
  ◌==◌, ==_self, bit_and, pos, from_word, done, length, length-append, ge→ltb, le→leb, drop,
  length-drop,
}
use af_ipc.Common.Bits.{bit_or_fields}
use af_ipc.Rpc.Memory.{Bytes, load, be16, from_be}
use af_ipc.Rpc.Types.{
  ok, get_size_of_type, type_is_integer, type_is_blob, type_uint8, type_uint16, type_uint32,
  type_int8, type_int16, type_int32,
}
use af_ipc.Rpc.Types.Masks.{type_is_integer_of_lt, and_0x8000}
use af_ipc.Rpc.Add.Contents.{Contains}
use af_ipc.Rpc.Get.Found.{getlen_inside, load_inside}
use af_ipc.Rpc.Items.{Item, uint8, uint16, uint32, int8, int16, int32, blob, item_type}
use af_ipc.Rpc.Params.{
  Param, word, pointer, read_base, get_uint8_param, get_uint16_param, get_uint32_param,
  get_int8_param, get_int16_param, get_int32_param,
}
use af_ipc.Rpc.Params.Placed.{size_of_blob}
use af_ipc.Rpc.Params.Parse.{
  read_int, read_integer, read_typed, read_value, read_param, extend8, extend16,
}

-- The entry has the parameter's type, and the macro for the type reads the parameter; so does a cast
-- to the 32-bit type of the same sign.
abbrev pub IsRead : Item → Param → Type 0
IsRead (uint8 v) y = (y.type ≡ type_uint8) × (get_uint8_param y ≡ v) × (get_uint32_param y ≡ v)
IsRead (uint16 v) y = (y.type ≡ type_uint16) × (get_uint16_param y ≡ v) × (get_uint32_param y ≡ v)
IsRead (uint32 v) y = (y.type ≡ type_uint32) × (get_uint32_param y ≡ v) × (get_uint32_param y ≡ v)
IsRead (int8 v) y = (y.type ≡ type_int8) × (get_int8_param y ≡ v) × (get_int32_param y ≡ v)
IsRead (int16 v) y = (y.type ≡ type_int16) × (get_int16_param y ≡ v) × (get_int32_param y ≡ v)
IsRead (int32 v) y = (y.type ≡ type_int32) × (get_int32_param y ≡ v) × (get_int32_param y ≡ v)
IsRead (blob v) y = (y.type ≡ length v) × (read_base y.base (length v) ≡ done v)

-- The first entries of the array are the parameters.
abbrev pub AreRead : List Item → List Param → Type 0
AreRead [] ys = Unit {0}
AreRead (x ∷ xs) [] = ⊥
AreRead (x ∷ xs) (y ∷ ys) = IsRead x y × AreRead xs ys

-- The type that the caller expects, which only the strict mode compares.
abbrev pub IsExpected : Bool → Item → Param → Type 0
IsExpected true x y = Unit {0}
IsExpected false (blob v) y = type_is_blob y.type ≡ true
IsExpected false x y = y.type ≡ item_type x

abbrev pub AreExpected : Bool → List Item → List Param → Type 0
AreExpected permissive [] ys = Unit {0}
AreExpected permissive (x ∷ xs) [] = ⊥
AreExpected permissive (x ∷ xs) (y ∷ ys) = IsExpected permissive x y × AreExpected permissive xs ys

-- The strict mode wants the number of parameters.
abbrev pub IsCount : Bool → ℕ → ℕ → Type 0
IsCount true k num_params = k ≤ num_params
IsCount false k num_params = k ≡ num_params

type_accepted :
    (permissive : Bool) (t e : ℕ)
    → (permissive ≡ false → e ≡ t)
    → (not permissive && not (e == t)) ≡ false
type_accepted true t e h = refl
type_accepted false t e h = rw (h refl) (rw (==_self t))

blob_accepted :
    (permissive : Bool) (e : ℕ)
    → (permissive ≡ false → type_is_blob e ≡ true)
    → (not permissive && not (type_is_blob e)) ≡ false
blob_accepted true e h = refl
blob_accepted false e h = rw (h refl)

pub load-drop : (b : Bytes) (q n : ℕ) → q + n ≤ length b → load (drop q b) 0 n ≡ load b q n
unfolding load
load-drop b q n h = rw (
  le→leb (q + n) (length b) h,
  le→leb (0 + n) (length (drop q b)) (omega (arith, length-drop q b)),
)

pub low8 : (w : ℕ) → w < 2 ^ 8 → extend8 w % 2 ^ 8 ≡ w
low8 w h = ground arith

pub low16 : (w : ℕ) → w < 2 ^ 16 → extend16 w % 2 ^ 16 ≡ w
low16 w h = ground (arith, bit_or_fields 16 0xffff w)

-- The extension to 32 bits.
pub wide8 : (w : ℕ) → w < 2 ^ 8 → from_word 32 (extend8 w % 2 ^ 32) ≡ from_word 8 w
wide8 w h = ground arith

pub wide16 : (w : ℕ) → w < 2 ^ 16 → from_word 32 (extend16 w % 2 ^ 32) ≡ from_word 16 w
wide16 w h = ground (arith, bit_or_fields 16 0xffff w, and_0x8000 w)

pub expected :
    (permissive : Bool) (x : Item) (y : Param)
    → IsExpected permissive x y
    → permissive ≡ false
    → IsExpected false x y
expected true x y h e = absurd (cc)
expected false x y h e = h

module _ (address : ℕ) (b pre post : Bytes) (permissive : Bool) (len p : ℕ)
    (hp : p ≡ 2 + length pre) (inside : len ≤ length b) where
  -- The round on an integer of `size` bytes, given what it does behind the type.
  pub integer_round :
      (type size : ℕ) (v : Bytes) (y : Param) (extend : ℕ → ℕ)
      → Contains b (pre ++ (be16 type ++ (v ++ post)))
      → len ≡ 2 + length (pre ++ (be16 type ++ (v ++ post)))
      → type < 2 ^ 16
      → length v ≡ size
      → get_size_of_type type ≡ pos size
      → type_is_integer type ≡ true
      → (bit_and type 0xF000 == type) ≡ true
      → (permissive ≡ false → y.type ≡ type)
      → ((q : ℕ) → read_integer b q type y ≡ read_int b q type size extend)
      → read_param address b len permissive p y
        ≡ done (ok (p + 2 + size), record { base = word (extend (from_be v)); type = type })
  unfolding read_param read_value read_typed read_int
  integer_round type size v y extend c hl ht hv hs hi hm hx step =
      let room : p + 2 + size ≤ len =
        omega (arith, hl, length-append pre (be16 type ++ (v ++ post)), length-append v post) in
      rw (
        le→leb (p + 2) len (omega arith),
        getlen_inside b pre v post type p c hp ht,
        hs,
        ge→ltb len (p + 2 + size) room,
        hi,
        hm,
        type_accepted permissive type y.type hx,
        step (p + 2),
        ← hv,
        load_inside b pre v post type p c hp,
      )

  pub blob_round :
      (v : Bytes) (y : Param)
      → Contains b (pre ++ (be16 (length v) ++ (v ++ post)))
      → len ≡ 2 + length (pre ++ (be16 (length v) ++ (v ++ post)))
      → length v < 2 ^ 14
      → (permissive ≡ false → type_is_blob y.type ≡ true)
      → read_param address b len permissive p y
        ≡ done (
          ok (p + 2 + length v),
          record { base = pointer (address + (p + 2)) (drop (p + 2) b); type = length v },
        )
  unfolding read_param read_value read_typed
  blob_round v y c hl hv hx =
      let room : p + 2 + length v ≤ len =
        omega
          (arith, hl, length-append pre (be16 (length v) ++ (v ++ post)), length-append v post) in
      rw (
        le→leb (p + 2) len (omega arith),
        getlen_inside b pre v post (length v) p c hp (omega arith),
        size_of_blob (length v) hv,
        ge→ltb len (p + 2 + length v) room,
        type_is_integer_of_lt (length v) (omega arith),
        blob_accepted permissive y.type hx,
      )
