-- ===== src/Rpc/Params/Round.antt =====
-- What one round of af_rpc_get_params_from_buffer of pkg/src/af_rpc.c reads.
use af_ipc.Common.{
  ℕ, ◌+◌, ◌%◌, ◌^◌, ◌≤◌, ◌<◌, ◌≡◌, refl, ap, ◌∙◌, ◌++◌, arith, Bool, to_word, from_word, Run, done,
  length, length-append, drop,
}
use af_ipc.Rpc.Memory.{Bytes, be8, be16, be32, from_be}
use af_ipc.Rpc.Types.{
  ok, get_size_of_type, type_is_integer, type_uint8, type_uint16, type_uint32, type_int8,
  type_int16, type_int32,
}
use af_ipc.Rpc.Add.Contents.{Contains}
use af_ipc.Rpc.Get.Found.{load_inside}
use af_ipc.Rpc.Items.{Item, uint8, uint16, uint32, int8, int16, int32, blob, IsItem, encode}
use af_ipc.Rpc.Items.Read.{signed8, signed16, signed32}
use af_ipc.Rpc.Params.{Param, word, pointer}
use af_ipc.Rpc.Params.Parse.{Entry, read_integer, read_param, extend8, extend16}
use af_ipc.Rpc.Params.ReadBack.{
  IsRead, IsExpected, expected, low8, low16, wide8, wide16, load-drop, integer_round, blob_round,
}

low32 : (w : ℕ) → w < 2 ^ 32 → w % 2 ^ 32 ≡ w
low32 w h = omega arith

next_to : (k q : ℕ) (y : Param) → k ≡ q → ◌≡◌ {A = Run Entry} (done (ok k, y)) (done (ok q, y))
next_to k q y h = ap (λ m. done (ok m, y)) h

module _ (address : ℕ) (b pre post : Bytes) (permissive : Bool) (len p : ℕ)
    (hp : p ≡ 2 + length pre) (inside : len ≤ length b) where
  pub read_param_found :
      (x : Item) (y : Param)
      → IsItem x
      → IsExpected permissive x y
      → Contains b (pre ++ (encode x ++ post))
      → len ≡ 2 + length (pre ++ (encode x ++ post))
      → (y' : Param) × (read_param address b len permissive p y
          ≡ done (ok (p + length (encode x)), y'))
        × IsRead x y'
  unfolding get_size_of_type type_is_integer read_integer
  read_param_found (uint8 v) y h hx c hl = (
    record { base = word (from_be (be8 v)); type = type_uint8 },
    integer_round address b pre post permissive len p hp inside type_uint8 1 (be8 v) y (λ w. w) c hl
          (omega arith) refl refl refl refl (expected permissive (uint8 v) y hx) (λ q. refl)
        ∙ next_to _ _ _ (omega arith),
    (refl, omega arith, omega arith),
  )
  read_param_found (uint16 v) y h hx c hl = (
    record { base = word (from_be (be16 v)); type = type_uint16 },
    integer_round address b pre post permissive len p hp inside type_uint16 2 (be16 v) y (λ w. w) c
          hl (omega arith) refl refl refl refl (expected permissive (uint16 v) y hx) (λ q. refl)
        ∙ next_to _ _ _ (omega arith),
    (refl, omega arith, omega arith),
  )
  read_param_found (uint32 v) y h hx c hl = (
    record { base = word (from_be (be32 v)); type = type_uint32 },
    integer_round address b pre post permissive len p hp inside type_uint32 4 (be32 v) y (λ w. w) c
          hl (omega arith) refl refl refl refl (expected permissive (uint32 v) y hx) (λ q. refl)
        ∙ next_to _ _ _ (omega arith),
    (refl, omega arith, omega arith),
  )
  read_param_found (int8 v) y h hx c hl = (
    record { base = word (extend8 (from_be (be8 (to_word 8 v)))); type = type_int8 },
    integer_round address b pre post permissive len p hp inside type_int8 1 (be8 (to_word 8 v)) y
          extend8 c hl (omega arith) refl refl refl refl (expected permissive (int8 v) y hx)
          (λ q. refl)
        ∙ next_to _ _ _ (omega arith),
    (
      refl,
      ap (from_word 8) (low8 (from_be (be8 (to_word 8 v))) (omega arith)) ∙ signed8 v h,
      wide8 (from_be (be8 (to_word 8 v))) (omega arith) ∙ signed8 v h,
    ),
  )
  read_param_found (int16 v) y h hx c hl = (
    record { base = word (extend16 (from_be (be16 (to_word 16 v)))); type = type_int16 },
    integer_round address b pre post permissive len p hp inside type_int16 2 (be16 (to_word 16 v)) y
          extend16 c hl (omega arith) refl refl refl refl (expected permissive (int16 v) y hx)
          (λ q. refl)
        ∙ next_to _ _ _ (omega arith),
    (
      refl,
      ap (from_word 16) (low16 (from_be (be16 (to_word 16 v))) (omega arith)) ∙ signed16 v h,
      wide16 (from_be (be16 (to_word 16 v))) (omega arith) ∙ signed16 v h,
    ),
  )
  read_param_found (int32 v) y h hx c hl = (
    record { base = word (from_be (be32 (to_word 32 v))); type = type_int32 },
    integer_round address b pre post permissive len p hp inside type_int32 4 (be32 (to_word 32 v)) y
          (λ w. w) c hl (omega arith) refl refl refl refl (expected permissive (int32 v) y hx)
          (λ q. refl)
        ∙ next_to _ _ _ (omega arith),
    (
      refl,
      ap (from_word 32) (low32 (from_be (be32 (to_word 32 v))) (omega arith)) ∙ signed32 v h,
      ap (from_word 32) (low32 (from_be (be32 (to_word 32 v))) (omega arith)) ∙ signed32 v h,
    ),
  )
  read_param_found (blob v) y h hx c hl = (
    record { base = pointer (address + (p + 2)) (drop (p + 2) b); type = length v },
    blob_round address b pre post permissive len p hp inside v y c hl h
          (expected permissive (blob v) y hx)
        ∙ next_to _ _ _ (omega arith),
    (
      refl,
      load-drop b (p + 2) (length v) (
            omega
              (arith, hl, length-append pre (be16 (length v) ++ (v ++ post)), length-append v post))
          ∙ load_inside b pre v post (length v) p c hp,
    ),
  )
