-- ===== src/Rpc/Items.antt =====
-- A client of the incremental writers and readers of pkg/src/af_rpc.c: it writes a list of
-- parameters and reads them back, each by the function of its type.
pub mod Write
pub mod Read
pub mod Safety
use af_ipc.Common.{
  ℕ, ◌^◌, ◌+◌, ◌<◌, ◌≡◌, Option, none, some, List, [], ◌∷◌, ◌++◌, ℤ, pos, negsuc, to_word, IsSigned,
  Run, done, fault, ◌>>=◌, length, take,
}
use mathlib.Core.Option
use af_ipc.Rpc.Memory.{Bytes, Buffer, be8, be16, be32}
use af_ipc.Rpc.Types.{Result, ok, err, bad_param}
use af_ipc.Rpc.Add.{
  Written, add_uint8_to_buffer, add_uint16_to_buffer, add_uint32_to_buffer, add_int8_to_buffer,
  add_int16_to_buffer, add_int32_to_buffer, add_blob_to_buffer, init_buffer,
}
use af_ipc.Rpc.Get.{
  get_uint8_from_buffer_at_pos, get_uint16_from_buffer_at_pos, get_uint32_from_buffer_at_pos,
  get_int8_from_buffer_at_pos, get_int16_from_buffer_at_pos, get_int32_from_buffer_at_pos,
  get_blob_with_length_from_buffer_at_pos, BlobRead,
}

-- A parameter, by its type.
pub data Item : Type 0 where
  uint8 uint16 uint32 : ℕ → Item
  int8 int16 int32 : ℤ → Item
  blob : Bytes → Item

-- The value is one of its type; a blob has at most 16383 bytes.
abbrev pub IsItem : Item → Type 0
IsItem (uint8 v) = v < 2 ^ 8
IsItem (uint16 v) = v < 2 ^ 16
IsItem (uint32 v) = v < 2 ^ 32
IsItem (int8 v) = IsSigned 8 v
IsItem (int16 v) = IsSigned 16 v
IsItem (int32 v) = IsSigned 32 v
IsItem (blob v) = length v < 2 ^ 14

abbrev pub AllItems : List Item → Type 0
AllItems [] = Unit {0}
AllItems (x ∷ xs) = IsItem x × AllItems xs

-- The encoding that af_rpc.h describes: a 16-bit type, then the value, big endian.
abbrev pub item_type : Item → ℕ
item_type (uint8 v) = 0x9000
item_type (uint16 v) = 0xA000
item_type (uint32 v) = 0xB000
item_type (int8 v) = 0xD000
item_type (int16 v) = 0xE000
item_type (int32 v) = 0xF000
item_type (blob v) = length v

abbrev pub item_bytes : Item → Bytes
item_bytes (uint8 v) = be8 v
item_bytes (uint16 v) = be16 v
item_bytes (uint32 v) = be32 v
item_bytes (int8 v) = be8 (to_word 8 v)
item_bytes (int16 v) = be16 (to_word 16 v)
item_bytes (int32 v) = be32 (to_word 32 v)
item_bytes (blob v) = v

abbrev pub encode : Item → Bytes
encode x = be16 (item_type x) ++ item_bytes x

abbrev pub encode_all : List Item → Bytes
encode_all [] = []
encode_all (x ∷ xs) = encode x ++ encode_all xs

-- The writer of the parameter's type.
unfoldable pub add_item : Buffer → ℤ → Item → Run Written
add_item buf n (uint8 v) = add_uint8_to_buffer buf n v
add_item buf n (uint16 v) = add_uint16_to_buffer buf n v
add_item buf n (uint32 v) = add_uint32_to_buffer buf n v
add_item buf n (int8 v) = add_int8_to_buffer buf n v
add_item buf n (int16 v) = add_int16_to_buffer buf n v
add_item buf n (int32 v) = add_int32_to_buffer buf n v
add_item buf n (blob v) = add_blob_to_buffer buf n (some v) (pos (length v))

-- Writes in order, up to the first error.
unfoldable pub add_items : Written → ℤ → List Item → Run Written
unfolding add_item
add_items w n [] = done w
add_items (err e, buf) n (x ∷ xs) = done (err e, buf)
add_items (ok p, buf) n (x ∷ xs) = add_item buf n x >>= λ w. add_items w n xs

unfoldable pub write_items : Buffer → ℤ → List Item → Run Written
unfolding add_items
write_items buf n xs = init_buffer buf n >>= λ w. add_items w n xs

abbrev read_as : {A : Type 0} → (A → Item) → Result ℕ × Option A → Result (ℕ × Item)
read_as c (ok p, some v) = ok (p, c v)
read_as c (ok p, none) = err bad_param
read_as c (err e, v) = err e

abbrev read_blob : BlobRead → Result (ℕ × Item)
read_blob (ok p, some memory, some (pos k)) = ok (p, blob (take k memory))
read_blob (ok p, memory, size) = err bad_param
read_blob (err e, memory, size) = err e

-- The reader of the type of the parameter that is expected; blobs are read into `scratch`.
unfoldable pub get_item : Bytes → Buffer → ℤ → ℤ → Item → Run (Result (ℕ × Item))
get_item scratch buf n p (uint8 v) =
    get_uint8_from_buffer_at_pos (some 0) buf n p >>= λ r. done (read_as uint8 r)
get_item scratch buf n p (uint16 v) =
    get_uint16_from_buffer_at_pos (some 0) buf n p >>= λ r. done (read_as uint16 r)
get_item scratch buf n p (uint32 v) =
    get_uint32_from_buffer_at_pos (some 0) buf n p >>= λ r. done (read_as uint32 r)
get_item scratch buf n p (int8 v) =
    get_int8_from_buffer_at_pos (some (pos 0)) buf n p >>= λ r. done (read_as int8 r)
get_item scratch buf n p (int16 v) =
    get_int16_from_buffer_at_pos (some (pos 0)) buf n p >>= λ r. done (read_as int16 r)
get_item scratch buf n p (int32 v) =
    get_int32_from_buffer_at_pos (some (pos 0)) buf n p >>= λ r. done (read_as int32 r)
get_item scratch buf n p (blob v) =
    get_blob_with_length_from_buffer_at_pos (some scratch) (some (pos (length scratch))) buf n p
    >>= λ r. done (read_blob r)

abbrev prepend : Item → Result (ℕ × List Item) → Result (ℕ × List Item)
prepend x (ok (p, xs)) = ok (p, x ∷ xs)
prepend x (err e) = err e

-- Reads one parameter after the other, from position `p` on.
unfoldable pub get_items : Bytes → Buffer → ℤ → ℕ → List Item → Run (Result (ℕ × List Item))
unfolding get_item
get_items scratch buf n p [] = done (ok (p, []))
get_items scratch buf n p (x ∷ xs) = get_item scratch buf n (pos p) x >>= λ r. elim r [
  | ok (q, y) ↦ get_items scratch buf n q xs >>= λ rest. done (prepend y rest)
  | err e ↦ done (err e)
]
