-- ===== src/Client/Busy.antt =====
-- The connection of pkg/src/af_ipc_client.c while its callbacks run for the messages of a packet.
use af_ipc.Common.{
  ℕ, zero, suc, ◌+◌, ◌-◌, ◌<◌, ◌≡◌, refl, ◌∙◌, true, ◌||◌, or_false, Option, none, some, List, [],
  ◌∷◌, arith, inl, inr, Bool-cases, ltb, leb, ltb→ge, ltb→lt, Run, fault, done, ◌>>=◌, length, take,
  drop,
}
use mathlib.Core.Option
use af_ipc.Rpc.Memory.{Bytes}
use af_ipc.Ipc.SeqNum.{get_seq_id}
use af_ipc.Ipc.Requests.{Request}
use af_ipc.Ipc.Receive.{Delivery, header_len, header_seq_num}
use af_ipc.Client.{Connection, live, freed, Effect, call_receive, Left}
use af_ipc.Client.Receive.{
  Action, act_all, then_more, call_one, call_all, take_message, continue_with, receive_messages,
  returned, take_packet,
}
use af_ipc.Client.Closing.{close_calls, quiet-append, IsOpen}
use af_ipc.Client.Orderly.{calm, AreFitting, IsBusy, act_all-IsBusy, then-IsBusy}

-- The loop over the messages has ended, and the state is that of a callback.
abbrev IsBusyLoop : ℕ → Option (Run Left) → Type 0
IsBusyLoop context none = ⊥
IsBusyLoop context (some x) = IsBusy context x

-- The calls for a message, and the loop over the messages.
module _ (r : Request) (context : ℕ) (acts : Delivery → List Action)
    (fit : (d : Delivery) → AreFitting (acts d)) where
  call_one-IsBusy :
      (d : Delivery) (c : Connection)
      → IsOpen context c
      → c.in_receive ≡ true
      → IsBusy context (call_one (calm r) acts d (live c))
  unfolding call_one
  call_one-IsBusy d c h busy =
      received (act_all (calm r) (acts d) (live c))
        (act_all-IsBusy r context (acts d) c (fit d) h busy)
    where
      received :
          (x : Run Left)
          → IsBusy context x
          → IsBusy context (x >>= λ q. done (then_more (call_receive d ∷ []) q))
      received fault b = b
      received (done (freed, es)) b = b
      received (done (live c'', es)) b = b

  call_all-IsBusy :
      (ds : List Delivery) (c : Connection)
      → IsOpen context c
      → c.in_receive ≡ true
      → IsBusy context (call_all (calm r) acts ds (live c))
  unfolding call_all
  call_all-IsBusy [] c h busy = (h, busy, refl)
  call_all-IsBusy (d ∷ ds) c h busy =
      then-IsBusy context (call_one (calm r) acts d (live c)) (call_all (calm r) acts ds)
        (call_one-IsBusy d c h busy) λ c' h' busy'. call_all-IsBusy ds c' h' busy'

  message-IsBusy :
      (seq_id : ℕ) (payload : Bytes) (c : Connection)
      → IsOpen context c
      → c.in_receive ≡ true
      → IsBusy context (take_message (calm r) acts seq_id payload c)
  unfolding take_message
  message-IsBusy seq_id payload c h busy =
      call_all-IsBusy _ _
        (record { has_callback = h.has_callback; same_context = h.same_context; valid = h.valid })
        busy

  next-IsBusy :
      (rest : Connection → Option (Run Left)) (x : Run Left)
      → IsBusy context x
      → ((c : Connection) → IsOpen context c → c.in_receive ≡ true → IsBusyLoop context (rest c))
      → IsBusyLoop context (continue_with rest x)
  next-IsBusy rest fault b k = b
  next-IsBusy rest (done (freed, es)) b k = b
  next-IsBusy rest (done (live c, es)) b k = more es (rest c) b.2 (k c b.0 b.1)
    where
      more :
          (es : List Effect) (o : Option (Run Left))
          → close_calls es ≡ []
          → IsBusyLoop context o
          → IsBusyLoop context (Option.map (λ x. x >>= λ q. done (then_more es q)) o)
      more es none q b' = b'
      more es (some fault) q b' = b'
      more es (some (done (freed, fs))) q b' = b'
      more es (some (done (live c', fs))) q b' = (b'.0, b'.1, quiet-append es fs q ∙ b'.2)

  receive-IsBusyLoop :
      (fuel : ℕ) (buf : Bytes) (p : ℕ) (c : Connection)
      → length buf - p < fuel
      → IsOpen context c
      → c.in_receive ≡ true
      → IsBusyLoop context (receive_messages fuel (calm r) acts buf p c)
  unfolding receive_messages
  receive-IsBusyLoop zero buf p c enough h busy = absurd (omega arith)
  receive-IsBusyLoop (suc fuel) buf p c enough h busy =
      let m = header_len buf p in
      elim (Bool-cases (ltb p (length buf))) [
        | inr end ↦ rw end (h, busy, refl)
        | inl more ↦ elim (Bool-cases (leb (length buf) (p + 8))) [
          | inl short ↦ rw (more, short) (h, busy, refl)
          | inr room ↦ elim (Bool-cases (ltb (length buf) (p + m) || ltb m 8)) [
            | inl bad ↦ rw (more, room, bad) (h, busy, refl)
            | inr good ↦
                let (inside, header) = or_false (ltb (length buf) (p + m)) (ltb m 8) good in
                rw (more, room, good)
                  (next-IsBusy _ _
                    (message-IsBusy (get_seq_id (header_seq_num buf p))
                      (take (m - 8) (drop (p + 8) buf)) c h busy)
                    λ c' h' busy'.
                      receive-IsBusyLoop fuel buf (p + m) c'
                        (omega (arith, ltb→ge m 8 header, ltb→lt p (length buf) more)) h' busy')
          ]
        ]
      ]

  pub take-IsBusy :
      (buf : Bytes) (c : Connection)
      → IsOpen context c
      → IsBusy context (take_packet (calm r) acts buf c)
  unfolding take_packet
  take-IsBusy buf c h =
      looped
        (receive_messages (length buf + 1) (calm r) acts buf 0 (record c { in_receive = true }))
        (receive-IsBusyLoop (length buf + 1) buf 0 (record c { in_receive = true }) (omega arith)
          (record { has_callback = h.has_callback; same_context = h.same_context; valid = h.valid })
          refl)
    where
      looped : (o : Option (Run Left)) → IsBusyLoop context o → IsBusy context (returned o)
      looped none b = b
      looped (some x) b = b
