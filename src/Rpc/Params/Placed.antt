-- ===== src/Rpc/Params/Placed.antt =====
-- What one round of af_rpc_create_buffer_with_params of pkg/src/af_rpc.c writes.
use af_ipc.Common.{
  ℕ, ◌+◌, ◌%◌, ◌^◌, ◌≤◌, ◌<◌, ◌≡◌, refl, ap, ap₂, sym, ◌∙◌, ◌≢◌, List, [], ◌∷◌, ◌++◌, append_assoc,
  arith, ℤ, pos, negsuc, to_word, Run, done, ◌>>=◌, length, length-append, ge→ltb, le→leb, ltb,
  if◌then◌else◌, bit_and, ne→==, take, drop, take-append-drop,
}
use af_ipc.Rpc.Memory.{Bytes, setlen, store, store_part, load_part, be8, be16, be32}
use af_ipc.Rpc.Types.{ok, get_size_of_type}
use af_ipc.Rpc.Types.Masks.{and_0x3fff, type_is_integer_of_lt}
use af_ipc.Rpc.Add.Contents.{cut, store_value}
use af_ipc.Rpc.Items.{Item, uint8, uint16, uint32, int8, int16, int32, blob}
use af_ipc.Rpc.Params.{
  Param, pointer, set_param_as_uint8, set_param_as_uint16, set_param_as_uint32, set_param_as_int8,
  set_param_as_int16, set_param_as_int32, set_param_as_blob,
}
use af_ipc.Rpc.Params.Create.{Placed, put, put_blob, put_sized, put_param}

-- A parameter set up by the macro of its type; a blob's pointer is not NULL and has the blob's bytes
-- behind it.
abbrev pub IsParam : Item → Param → Type 0
IsParam (uint8 v) y = y ≡ set_param_as_uint8 v
IsParam (uint16 v) y = y ≡ set_param_as_uint16 v
IsParam (uint32 v) y = y ≡ set_param_as_uint32 v
IsParam (int8 v) y = y ≡ set_param_as_int8 v
IsParam (int16 v) y = y ≡ set_param_as_int16 v
IsParam (int32 v) y = y ≡ set_param_as_int32 v
IsParam (blob v) y =
    (address : ℕ) × (behind : Bytes) × (address ≢ 0)
    × (y ≡ set_param_as_blob (pointer address (v ++ behind)) (length v))

abbrev pub AreParams : List Item → List Param → Type 0
AreParams [] ys = Unit {0}
AreParams (x ∷ xs) [] = ⊥
AreParams (x ∷ xs) (y ∷ ys) = IsParam x y × AreParams xs ys

-- The two writes of a parameter behind `pre`.
placed :
    (type : ℕ) (n p : ℕ) (b pre rest v : Bytes)
    → b ≡ pre ++ rest
    → p ≡ length pre
    → p + 2 + length v ≤ length b
    → (b1 b2 r3 : Bytes) × (setlen b p type ≡ done b1)
      × (store b1 (p + 2) v ≡ done b2)
      × (b2 ≡ (pre ++ (be16 type ++ v)) ++ r3)
      × (length b1 ≡ length b)
      × (length b2 ≡ length b)
unfolding setlen
placed type n p b pre rest v e hp room =
    let (r1, r2, r3, er, h1, h2) =
      cut rest (length v) (omega (arith, ap length e, length-append pre rest)) in
    (
      pre ++ (be16 type ++ (r2 ++ r3)),
      pre ++ (be16 type ++ (v ++ r3)),
      r3,
      ap (λ z. setlen z p type) (e ∙ ap (◌++◌ pre) er)
          ∙ store_part pre r1 (r2 ++ r3) (be16 type) p hp (sym h1),
      store_value pre (be16 type) v r2 r3 p hp refl (sym h2),
      sym (append_assoc pre (be16 type ++ v) r3),
      omega (
        arith,
        ap length e,
        length-append pre rest,
        ap length er,
        length-append r1 (r2 ++ r3),
        length-append r2 r3,
        length-append pre (be16 type ++ (r2 ++ r3)),
      ),
      omega (
        arith,
        ap length e,
        length-append pre rest,
        ap length er,
        length-append r1 (r2 ++ r3),
        length-append r2 r3,
        length-append pre (be16 type ++ (v ++ r3)),
        length-append v r3,
      ),
    )

-- A parameter was written behind `pre`, and `q` is the position behind it.
abbrev pub IsPut : ℕ → Bytes → Bytes → Bytes → Run Placed → Type 0
IsPut q b pre new r =
    (b' rest : Bytes) × (r ≡ done (ok q, b')) × (b' ≡ (pre ++ new) ++ rest) × (length b' ≡ length b)

pub put_bytes :
    (type size n p q : ℕ) (b pre rest v w : Bytes) (over : Run Placed)
    → b ≡ pre ++ rest
    → p ≡ length pre
    → length v ≡ size
    → v ≡ w
    → q ≡ p + 2 + size
    → q ≤ n
    → n ≤ length b
    → IsPut q b pre
        (be16 type ++ w)
        (if ltb n (p + 2 + size) then over else (setlen b p type >>= λ b1. put b1 (p + 2) v size))
unfolding put
put_bytes type size n p q b pre rest v w over e hp hv hw hq room inside =
    let (b1, b2, r3, e1, e2, eq, l1, l) = placed type n p b pre rest v e hp (omega arith) in
    (
      b2,
      r3,
      rw (ge→ltb n (p + 2 + size) (omega arith), e1, e2) (ap (λ k. done (ok k, b2)) (sym hq)),
      eq ∙ ap (λ z. (pre ++ (be16 type ++ z)) ++ r3) hw,
      l,
    )

pub signed_be8 : (z : ℤ) → be8 (to_word 64 z) ≡ be8 (to_word 8 z)
signed_be8 (pos n) = ground arith
signed_be8 (negsuc n) = ground arith

pub signed_be16 : (z : ℤ) → be16 (to_word 64 z) ≡ be16 (to_word 16 z)
signed_be16 (pos n) = ground arith
signed_be16 (negsuc n) = ground arith

pub signed_be32 : (z : ℤ) → be32 (to_word 64 z) ≡ be32 (to_word 32 z)
signed_be32 (pos n) = ground arith
signed_be32 (negsuc n) = ground arith

pub size_of_blob : (t : ℕ) → t < 2 ^ 14 → get_size_of_type t ≡ pos t
unfolding get_size_of_type
size_of_blob t h = rw (type_is_integer_of_lt t (omega arith)) (ap pos (omega (arith, and_0x3fff t)))

pub blob_type : (t : ℕ) → t < 2 ^ 14 → bit_and t 0x3fff % 2 ^ 16 ≡ t
blob_type t h = omega (arith, and_0x3fff t)

pub put_param-sized :
    (b : Bytes) (n p size : ℕ) (y : Param)
    → get_size_of_type (y.type % 2 ^ 16) ≡ pos size
    → size < 2 ^ 14
    → put_param b n p y ≡ put_sized b n p (y.type % 2 ^ 16) size y.base
unfolding put_param
put_param-sized b n p size y e h = rw (e, put_param) (rw (ge→ltb 16383 size (omega arith)))

-- The copy of a blob, skipped for an empty one.
put_blob_lem :
    (b1 b2 : Bytes) (p a : ℕ) (v behind : Bytes)
    → a ≢ 0
    → store b1 p v ≡ done b2
    → (v ≡ [] → b1 ≡ b2)
    → put_blob b1 p (length v) (pointer a (v ++ behind)) ≡ done (ok (p + length v), b2)
unfolding put_blob
put_blob_lem b1 b2 p a [] behind ha e same = ap₂ (λ k z. done (ok k, z)) (omega arith) (same refl)
put_blob_lem b1 b2 p a (x ∷ v) behind ha e same = rw (
  ne→== (length (x ∷ v)) 0 (omega arith),
  ne→== a 0 ha,
  load_part [] (x ∷ v) behind 0 (length (x ∷ v)) refl refl,
  e,
)

done_eq : {x y : Bytes} → ◌≡◌ {A = Run Bytes} (done x) (done y) → x ≡ y
done_eq h = cc

store_nil :
    (b b1 : Bytes) (p : ℕ) (v : Bytes) → p ≤ length b → store b p v ≡ done b1 → v ≡ [] → b ≡ b1
unfolding store
store_nil b b1 p [] h e nil =
    sym (take-append-drop p b)
    ∙ ap (λ k. take p b ++ drop k b) (omega arith)
    ∙ done_eq (rw (le→leb (p + 0) (length b) (omega arith)) at e)
store_nil b b1 p (x ∷ v) h e nil = cc

pub put_sized_blob :
    (t n p q a : ℕ) (b pre rest v behind : Bytes)
    → t ≡ length v
    → t < 2 ^ 14
    → a ≢ 0
    → b ≡ pre ++ rest
    → p ≡ length pre
    → q ≡ p + 2 + length v
    → q ≤ n
    → n ≤ length b
    → IsPut q b pre (be16 (length v) ++ v) (put_sized b n p t t (pointer a (v ++ behind)))
unfolding put_sized
put_sized_blob t n p q a b pre rest v behind ht small ha e hp hq room inside =
    let (b1, b2, r3, e1, e2, eq, l1, l) = placed t n p b pre rest v e hp (omega arith) in
    (
      b2,
      r3,
      rw (ge→ltb n (p + 2 + t) (omega arith), type_is_integer_of_lt t (omega arith), e1)
          (ap (λ k. put_blob b1 (p + 2) k (pointer a (v ++ behind))) ht
            ∙ put_blob_lem b1 b2 (p + 2) a v behind ha e2
                (store_nil b1 b2 (p + 2) v (omega arith) e2)
            ∙ ap (λ k. done (ok k, b2)) (omega arith)),
      eq ∙ ap (λ k. (pre ++ (be16 k ++ v)) ++ r3) ht,
      l,
    )
