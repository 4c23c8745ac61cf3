-- ===== src/Rpc/Add/Contents.antt =====
-- What the writers of pkg/src/af_rpc.c do to the contents of a buffer: the abstract view of a
-- buffer is the sequence of bytes between its length and that length.
use af_ipc.Common.{
  ℕ, ◌+◌, ◌-◌, ◌^◌, ◌%◌, ◌≤◌, ◌<◌, ◌≡◌, refl, ap, sym, ◌∙◌, some, [], ◌++◌, append_assoc, arith,
  pos, Run, done, length, take, drop, length-append, length-take, length-drop, take-append-drop,
  ge→ltb, ne→==,
}
use af_ipc.Rpc.Memory.{Bytes, setlen, getlen, store, store_part, load_part, getlen_part, be16}
use af_ipc.Rpc.Types.{ok}
use af_ipc.Rpc.Add.{append_value, add_value}

-- `b` holds the encoded parameters `body`: its length counts them, and they stand behind it.
abbrev pub Contains : Bytes → Bytes → Type 0
Contains b body = (rest : Bytes) × (b ≡ be16 (2 + length body) ++ (body ++ rest))

-- The room behind the contents, cut in three.
pub cut :
    (rest : Bytes) (size : ℕ)
    → 2 + size ≤ length rest
    → (r1 r2 r3 : Bytes) × (rest ≡ r1 ++ (r2 ++ r3)) × (length r1 ≡ 2) × (length r2 ≡ size)
cut rest size h = (
  take 2 rest,
  take size (drop 2 rest),
  drop size (drop 2 rest),
  sym (ap (◌++◌ (take 2 rest)) (take-append-drop size (drop 2 rest)) ∙ take-append-drop 2 rest),
  omega (arith, length-take 2 rest),
  omega (arith, length-take size (drop 2 rest), length-drop 2 rest),
)

-- The value, behind its type.
pub store_value :
    (pre t v r2 r3 : Bytes) (p : ℕ)
    → p ≡ length pre
    → length t ≡ 2
    → length v ≡ length r2
    → store (pre ++ (t ++ (r2 ++ r3))) (p + 2) v ≡ done (pre ++ (t ++ (v ++ r3)))
store_value pre t v r2 r3 p hp ht hv =
    rw (← append_assoc pre t (r2 ++ r3), ← append_assoc pre t (v ++ r3))
      (store_part (pre ++ t) r2 r3 v (p + 2) (omega (arith, length-append pre t)) hv)

-- The length, in front of all.
store_length :
    (m k : ℕ) (pre body t v r3 : Bytes)
    → pre ≡ be16 m ++ body
    → store (pre ++ (t ++ (v ++ r3))) 0 (be16 k) ≡ done (be16 k ++ ((body ++ (t ++ v)) ++ r3))
store_length m k pre body t v r3 e =
    rw (e, append_assoc body (t ++ v) r3, append_assoc t v r3)
      (store_part [] (be16 m) (body ++ (t ++ (v ++ r3))) (be16 k) 0 refl refl)

-- The three writes of an append, one after the other.
append_writes :
    (type size p m : ℕ) (pre body v r1 r2 r3 : Bytes)
    → pre ≡ be16 m ++ body
    → p ≡ length pre
    → length r1 ≡ 2
    → length r2 ≡ size
    → length v ≡ size
    → (setlen (pre ++ (r1 ++ (r2 ++ r3))) p type ≡ done (pre ++ (be16 type ++ (r2 ++ r3))))
      × (store (pre ++ (be16 type ++ (r2 ++ r3))) (p + 2) v
          ≡ done (pre ++ (be16 type ++ (v ++ r3))))
      × (setlen (pre ++ (be16 type ++ (v ++ r3))) 0 (p + 2 + size)
          ≡ done (be16 (p + 2 + size) ++ ((body ++ (be16 type ++ v)) ++ r3)))
unfolding setlen
append_writes type size p m pre body v r1 r2 r3 hpre hp h1 h2 hv = (
  store_part pre r1 (r2 ++ r3) (be16 type) p hp (sym h1),
  store_value pre (be16 type) v r2 r3 p hp refl (hv ∙ sym h2),
  store_length m (p + 2 + size) pre body (be16 type) v r3 hpre,
)

append_value_lem :
    (type size n p m : ℕ) (b pre body v r1 r2 r3 : Bytes)
    → b ≡ pre ++ (r1 ++ (r2 ++ r3))
    → pre ≡ be16 m ++ body
    → p ≡ length pre
    → length r1 ≡ 2
    → length r2 ≡ size
    → length v ≡ size
    → p + 2 + size ≤ n
    → append_value type size (done v) b n p
      ≡ done (ok (p + 2 + size), some (be16 (p + 2 + size) ++ ((body ++ (be16 type ++ v)) ++ r3)))
unfolding append_value
append_value_lem type size n p m b pre body v r1 r2 r3 e hpre hp h1 h2 hv room =
    let w = append_writes type size p m pre body v r1 r2 r3 hpre hp h1 h2 hv in
    rw (e, ge→ltb n (p + 2 + size) room, w.0, w.1, w.2)

-- The guards of a writer, passed.
add_value_lem :
    (type size n p : ℕ) (src : Run Bytes) (b : Bytes)
    → 2 ≤ n
    → getlen b 0 ≡ done p
    → add_value type size src (some b) (pos n) ≡ append_value type size src b n p
unfolding add_value
add_value_lem type size n p src b h e = rw (ne→== n 0 (omega arith), ge→ltb n 2 h, e)

pub getlen-Contains :
    (b body : Bytes)
    → Contains b body
    → 2 + length body < 2 ^ 16
    → getlen b 0 ≡ done (2 + length body)
getlen-Contains b body (rest, e) h = rw e (getlen_part [] (body ++ rest) 0 (2 + length body) refl h)

-- The same with the cut given.
add_value_cut :
    (type size n : ℕ) (b body v r1 r2 r3 : Bytes)
    → b ≡ be16 (2 + length body) ++ (body ++ (r1 ++ (r2 ++ r3)))
    → length r1 ≡ 2
    → length r2 ≡ size
    → length v ≡ size
    → 2 + length body + 2 + size ≤ n
    → 2 + length body + 2 + size < 2 ^ 16
    → (b' : Bytes) × (add_value type size (done v) (some b) (pos n)
        ≡ done (ok (2 + length body + 2 + size), some b'))
      × Contains b' (body ++ (be16 type ++ v))
      × (length b' ≡ length b)
add_value_cut type size n b body v r1 r2 r3 e h1 h2 hv room small =
    let L = length body in
    (
      be16 (2 + L + 2 + size) ++ ((body ++ (be16 type ++ v)) ++ r3),
      add_value_lem type size n (2 + L) (done v) b (omega arith)
            (getlen-Contains b body (r1 ++ (r2 ++ r3), e) (omega arith))
          ∙ append_value_lem type size n (2 + L) (2 + L) b (be16 (2 + L) ++ body) body v r1 r2 r3 e
              refl (omega arith) h1 h2 hv room,
      (
        r3,
        ap (λ k. be16 k ++ ((body ++ (be16 type ++ v)) ++ r3))
            (omega (arith, length-append body (be16 type ++ v))),
      ),
      omega (
        arith,
        ap length e,
        length-append body (r1 ++ (r2 ++ r3)),
        length-append r1 (r2 ++ r3),
        length-append r2 r3,
        length-append (body ++ (be16 type ++ v)) r3,
        length-append body (be16 type ++ v),
      ),
    )

-- An append with room for it adds the type and the value to the contents, returns the position
-- behind them, and keeps the size of the memory.
pub add_value-Contains :
    (type size n : ℕ) (b body v : Bytes)
    → Contains b body
    → length v ≡ size
    → 2 + length body + 2 + size ≤ n
    → n ≤ length b
    → 2 + length body + 2 + size < 2 ^ 16
    → (b' : Bytes) × (add_value type size (done v) (some b) (pos n)
        ≡ done (ok (2 + length body + 2 + size), some b'))
      × Contains b' (body ++ (be16 type ++ v))
      × (length b' ≡ length b)
add_value-Contains type size n b body v (rest, e) hv room inside small =
    let (r1, r2, r3, er, h1, h2) =
      cut rest size (omega (arith, ap length e, length-append body rest)) in
    add_value_cut type size n b body v r1 r2 r3
      (e ∙ ap (λ r. be16 (2 + length body) ++ (body ++ r)) er) h1 h2 hv room small

-- The length that an append leaves is the returned position, cast to uint16_t.
getlen_wrapped : (k : ℕ) (z : Bytes) → getlen (be16 k ++ z) 0 ≡ done (k % 2 ^ 16)
unfolding getlen
getlen_wrapped k z = rw (load_part [] (be16 k) z 0 2 refl refl) (ap done (omega arith))

wraps_cut :
    (type size n k : ℕ) (b body v r1 r2 r3 : Bytes)
    → b ≡ be16 (2 + length body) ++ (body ++ (r1 ++ (r2 ++ r3)))
    → length r1 ≡ 2
    → length r2 ≡ size
    → length v ≡ size
    → k ≡ 2 + length body + 2 + size
    → k ≤ n
    → 2 + length body < 2 ^ 16
    → (b' : Bytes) × (add_value type size (done v) (some b) (pos n) ≡ done (ok k, some b'))
      × (getlen b' 0 ≡ done (k % 2 ^ 16))
wraps_cut type size n k b body v r1 r2 r3 e h1 h2 hv hk room small =
    let L = 2 + length body in
    let new = (body ++ (be16 type ++ v)) ++ r3 in
    (
      be16 (L + 2 + size) ++ new,
      add_value_lem type size n L (done v) b (omega arith)
            (getlen-Contains b body (r1 ++ (r2 ++ r3), e) small)
          ∙ append_value_lem type size n L L b (be16 L ++ body) body v r1 r2 r3 e refl (omega arith)
              h1 h2 hv (omega arith)
          ∙ ap (λ m. done (ok m, some (be16 (L + 2 + size) ++ new))) (sym hk),
      getlen_wrapped (L + 2 + size) new ∙ ap (λ m. done (m % 2 ^ 16)) (sym hk),
    )

-- In a buffer of more than 65535 bytes an append may pass the check and return a position that does
-- not fit the 16-bit length: the buffer is left with that position less 65536 for its length.
pub add_value-wraps :
    (type size n k : ℕ) (b body v : Bytes)
    → Contains b body
    → length v ≡ size
    → size < 2 ^ 14
    → k ≡ 2 + length body + 2 + size
    → k ≤ n
    → n ≤ length b
    → 2 + length body < 2 ^ 16
    → 2 ^ 16 ≤ k
    → (b' : Bytes) × (add_value type size (done v) (some b) (pos n) ≡ done (ok k, some b'))
      × (getlen b' 0 ≡ done (k - 2 ^ 16))
add_value-wraps type size n k b body v (rest, e) hv hs hk room inside small large =
    let (r1, r2, r3, er, h1, h2) =
      cut rest size (omega (arith, ap length e, length-append body rest)) in
    let (b', w, g) =
      wraps_cut type size n k b body v r1 r2 r3
        (e ∙ ap (λ r. be16 (2 + length body) ++ (body ++ r)) er) h1 h2 hv hk room small in
    (b', w, g ∙ ap done (omega arith))
