-- ===== src/Tools/Print/Numbers.antt =====
-- What pkg/src/ipc_send.c and pkg/src/ipc_wait.c print of a reply of numbers.
use af_ipc.Common.{
  ℕ, zero, suc, ◌+◌, ◌*◌, ◌≤◌, ◌<◌, ◌≡◌, refl, ap, ◌∙◌, arith, List, [], ◌∷◌, ◌++◌, append_assoc,
  some, lt→ltb, le→leb, done, length, length-append, drop, length-drop,
}
use af_ipc.Rpc.Memory.{Bytes, store, store-Returns}
use af_ipc.Rpc.Types.{ok}
use af_ipc.Rpc.Items.{Item}
use af_ipc.Rpc.Params.{Param}
use af_ipc.Rpc.Params.ReadBack.{AreRead}
use af_ipc.Tools.Arguments.{value_text}
use af_ipc.Tools.Print.{zeros, put_space, put_number, put_value, put_values, print_params}
use af_ipc.Tools.Print.Texts.{
  IsShown, value_text-NoNul, value_text-Length, c_string_text, number-Shown,
}

abbrev pub AllShown : List Item → Type 0
AllShown [] = Unit {0}
AllShown (x ∷ xs) = IsShown x × AllShown xs

abbrev pub last_item : Item → List Item → Item
last_item x [] = x
last_item x (y ∷ xs) = last_item y xs

-- The space goes on, and keeps the size of the buffer.
pub space-Returns :
    (i p : ℕ) (s : Bytes)
    → length s ≡ 256
    → p < 253
    → (s' : Bytes) × (p' : ℕ) × (put_space i s p ≡ done (some (s', p')))
      × (length s' ≡ 256)
      × (p' ≤ p + 1)
unfolding put_space
space-Returns zero p s l h = (s, p, refl, l, omega arith)
space-Returns (suc i) p s l h =
    let (s', e, l') = store-Returns s p (32 ∷ []) (omega arith) in
    (s', p + 1, rw (lt→ltb (p + 1) 255 (omega arith), e) refl, l' ∙ l, omega arith)

-- strcpy to the start.
pub store_front : (s t : Bytes) → length t ≤ length s → store s 0 t ≡ done (t ++ drop (length t) s)
unfolding store
store_front s t h =
    rw (le→leb (0 + length t) (length s) (omega arith))
      (ap (λ n. done (t ++ drop n s)) (omega arith))

number_put :
    (t s : Bytes) (p : ℕ)
    → length t ≤ 10
    → length s ≡ 256
    → p < 240
    → put_number s p (some t)
      ≡ done (some ((t ++ (0 ∷ [])) ++ drop (length (t ++ (0 ∷ []))) s, p + length t))
unfolding put_number
number_put t s p short l h =
    rw
      (
        le→leb (length t + 1) 11 (omega arith),
        lt→ltb (p + length t) 255 (omega arith),
        store_front s (t ++ (0 ∷ [])) (omega (arith, length-append t (0 ∷ []))),
      )
      refl

values_shown :
    (x : Item) (xs : List Item) (i p : ℕ) (s : Bytes) (ys : List Param)
    → IsShown x
    → AllShown xs
    → AreRead (x ∷ xs) ys
    → length s ≡ 256
    → p ≤ 11 * i
    → i + length xs < 16
    → (rest : Bytes) × (q : ℕ) × (put_values i s p (suc (length xs)) ys
        ≡ done (some ((value_text (last_item x xs) ++ (0 ∷ [])) ++ rest, q)))
unfolding put_values put_value
values_shown x xs i p s [] h hs r l hp room = absurd r
values_shown x [] i p s (y ∷ ys) h hs r l hp room =
    let (s', p', e, l', hp') = space-Returns i p s l (omega arith) in
    let (integer, text) = number-Shown x y h r.0 in
    let t = value_text x in
    (
      drop (length (t ++ (0 ∷ []))) s',
      p' + length t,
      rw (e, integer, text, number_put t s' p' (value_text-Length x h) l' (omega arith)) refl,
    )
values_shown x (z ∷ xs) i p s (y ∷ ys) h hs r l hp room =
    let (s', p', e, l', hp') = space-Returns i p s l (omega arith) in
    let (integer, text) = number-Shown x y h r.0 in
    let t = value_text x in
    let short = value_text-Length x h in
    let s'' = (t ++ (0 ∷ [])) ++ drop (length (t ++ (0 ∷ []))) s' in
    let (rest, q, e') =
      values_shown z xs (i + 1) (p' + length t) s'' ys hs.0 hs.1 r.1
        (omega (
          arith,
          length-append (t ++ (0 ∷ [])) (drop (length (t ++ (0 ∷ []))) s'),
          length-append t (0 ∷ []),
          length-drop (length (t ++ (0 ∷ []))) s',
        ))
        (omega arith) (omega arith) in
    (rest, q, rw (e, integer, text, number_put t s' p' short l' (omega arith), e') refl)

length-zeros : (n : ℕ) → length (zeros n) ≡ n
length-zeros zero = refl
length-zeros (suc n) = omega (arith, length-zeros n)

-- Of a reply of one to sixteen numbers, whose texts fit in eleven bytes with their NULs, the tools
-- print the decimal text of the last one only: strcpy writes every number to the start of the
-- string. A reply of one number is printed as that number.
pub print_params-numbers :
    (x : Item) (xs : List Item) (ys : List Param)
    → IsShown x
    → AllShown xs
    → AreRead (x ∷ xs) ys
    → length xs < 16
    → print_params (ok (suc (length xs)), some ys) ≡ done (some (value_text (last_item x xs)))
unfolding print_params
print_params-numbers x xs ys h hs r few =
    let (rest, q, e) =
      values_shown x xs 0 0 (zeros 256) ys h hs r (length-zeros 256) (omega arith) (omega arith) in
    let t = value_text (last_item x xs) in
    rw (e, append_assoc t (0 ∷ []) rest, c_string_text t rest (value_text-NoNul (last_item x xs)))
      refl
