-- ===== src/Tools/Print/Blobs/Joined.antt =====
-- What pkg/src/ipc_send.c and pkg/src/ipc_wait.c print of a reply of blobs.
use af_ipc.Common.{
  ℕ, zero, suc, ◌+◌, ◌^◌, ◌<◌, ◌≡◌, refl, ap, subst, sym, ◌∙◌, arith, List, [], ◌∷◌, ◌++◌, map,
  append_assoc, append-nil, some, done, length, length-append,
}
use af_ipc.Rpc.Memory.{Bytes}
use af_ipc.Rpc.Types.{ok}
use af_ipc.Rpc.Items.{blob}
use af_ipc.Rpc.Params.{Param}
use af_ipc.Rpc.Params.ReadBack.{AreRead}
use af_ipc.Tools.Text.{hex_text}
use af_ipc.Tools.Text.Numbers.{length-hex_text}
use af_ipc.Tools.Print.{zeros, put_space, put_values, if_printing, c_string, print_params}
use af_ipc.Tools.Print.Texts.{NoNul, NoNul-append, hex_text-NoNul, c_string_text}
use af_ipc.Tools.Print.Blobs.{IsText, space_put, value_put, length-zeros}

-- The blobs in hexadecimal, with spaces between them.
abbrev pub joined : Bytes → List Bytes → Bytes
joined v [] = hex_text v
joined v (w ∷ vs) = hex_text v ++ (32 ∷ joined w vs)

abbrev separator : ℕ → Bytes
separator zero = []
separator (suc i) = 32 ∷ []

separator_next : (i : ℕ) → separator (i + 1) ≡ 32 ∷ []
separator_next i = let e : i + 1 ≡ suc i = omega arith in ap separator e

any_space :
    (t s : Bytes) (p i : ℕ)
    → IsText t s p
    → length t + length (separator i) < 255
    → (s' : Bytes) × (p' : ℕ) × (put_space i s p ≡ done (some (s', p')))
      × IsText (t ++ separator i) s' p'
unfolding put_space
any_space t s p zero h room = (s, p, refl, subst (λ z. IsText z s p) (sym (append-nil t)) h)
any_space t s p (suc i) h room =
    let (s', e, h') = space_put t s p i h (omega arith) in (s', p + 1, e, h')

abbrev pub AllSmall : List Bytes → Type 0
AllSmall [] = Unit {0}
AllSmall (v ∷ vs) = (length v < 2 ^ 14) × AllSmall vs

-- The parameters from number `i` on.
values_joined :
    (v : Bytes) (vs : List Bytes) (i p : ℕ) (t s : Bytes) (ys : List Param)
    → AllSmall (v ∷ vs)
    → AreRead (blob v ∷ map blob vs) ys
    → IsText t s p
    → length t + (length (separator i) + length (joined v vs)) < 255
    → (s' : Bytes) × (p' : ℕ) × (put_values i s p (suc (length vs)) ys ≡ done (some (s', p')))
      × IsText (t ++ (separator i ++ joined v vs)) s' p'
unfolding put_values
values_joined v vs i p t s [] small r h room = absurd r
values_joined v [] i p t s (y ∷ ys) small r h room =
    let (s1, p1, e1, h1) = any_space t s p i h (omega arith) in
    let (s2, p2, e2, h2) =
      value_put (if_printing λ (z : Bytes) (q : ℕ). put_values (i + 1) z q 0 ys) (t ++ separator i)
        s1 p1 v y h1 (omega (arith, length-append t (separator i), length-hex_text v)) small.0
        r.0 in
    (
      s2,
      p2,
      rw (e1, e2) refl,
      subst (λ z. IsText z s2 p2) (append_assoc t (separator i) (hex_text v)) h2,
    )
values_joined v (w ∷ vs) i p t s (y ∷ ys) small r h room =
    let more = length-append (hex_text v) (32 ∷ joined w vs) in
    let next : length (separator (i + 1)) ≡ 1 = ap length (separator_next i) in
    let (s1, p1, e1, h1) = any_space t s p i h (omega (arith, more)) in
    let (s2, p2, e2, h2) =
      value_put (if_printing λ (z : Bytes) (q : ℕ). put_values (i + 1) z q (suc (length vs)) ys)
        (t ++ separator i) s1 p1 v y h1
        (omega (arith, more, length-append t (separator i), length-hex_text v)) small.0 r.0 in
    let t2 = (t ++ separator i) ++ hex_text v in
    let (s', p', e', h') = values_joined w vs (i + 1) p2 t2 s2 ys small.1 r.1 h2 (
      omega (
        arith,
        more,
        next,
        length-append (t ++ separator i) (hex_text v),
        length-append t (separator i),
      )) in
    (
      s',
      p',
      rw (e1, e2, e') refl,
      subst (λ z. IsText z s' p')
          (ap (λ z. t2 ++ (z ++ joined w vs)) (separator_next i)
            ∙ append_assoc (t ++ separator i) (hex_text v) (32 ∷ joined w vs)
            ∙ append_assoc t (separator i) (hex_text v ++ (32 ∷ joined w vs)))
          h',
    )

joined-NoNul : (v : Bytes) (vs : List Bytes) → NoNul (joined v vs)
joined-NoNul v [] = hex_text-NoNul v
joined-NoNul v (w ∷ vs) =
    NoNul-append (hex_text v) (32 ∷ joined w vs) (hex_text-NoNul v) ((λ h. cc), joined-NoNul w vs)

string_end : (t s : Bytes) (p : ℕ) → IsText t s p → length t < 255 → NoNul t → c_string s ≡ done t
string_end t s p (zero, e, l, hp) room h = absurd (omega arith)
string_end t s p (suc m, e, l, hp) room h = ap c_string e ∙ c_string_text t (zeros m) h

-- A reply of blobs, of which the text in hexadecimal with single spaces between the blobs has less
-- than 255 characters, is printed as that text.
pub print_params-blobs :
    (v : Bytes) (vs : List Bytes) (ys : List Param)
    → AllSmall (v ∷ vs)
    → AreRead (blob v ∷ map blob vs) ys
    → length (joined v vs) < 255
    → print_params (ok (suc (length vs)), some ys) ≡ done (some (joined v vs))
unfolding print_params
print_params-blobs v vs ys small r room =
    let (s', p', e, h) =
      values_joined v vs 0 0 [] (zeros 256) ys small r (256, refl, length-zeros 256, refl)
        (omega arith) in
    rw (e, string_end (joined v vs) s' p' h room (joined-NoNul v vs)) refl
