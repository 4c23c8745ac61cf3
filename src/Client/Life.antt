-- ===== src/Client/Life.antt =====
-- The life of a connection of pkg/src/af_ipc_client.c in its receive event.
use af_ipc.Common.{
  ℕ, suc, ◌+◌, ◌-◌, ◌≡◌, refl, subst, ◌∙◌, true, false, Option, some, List, [], ◌∷◌, arith, inl,
  inr, Bool-cases, lt→ltb, gt→leb, ge→ltb, ℤ, Run, fault, done, ◌>>=◌, length, take, drop,
}
use af_ipc.Rpc.Memory.{Bytes}
use af_ipc.Ipc.Requests.{Request}
use af_ipc.Ipc.Send.{
  Environment, send_error, send, send_in_time, transmit, too_long, make_message, msghdr_len,
}
use af_ipc.Ipc.Receive.{Delivery, header_len, dispatch, take_incoming}
use af_ipc.Client.{
  Connection, Handle, live, freed, Effect, Left, status_ok, status_error, is_invalid,
  close_and_free_server, after_send, send_response,
}
use af_ipc.Client.Receive.{
  Action, responding, act, act_all, then_more, call_one, call_all, take_message, continue_with,
  receive_messages, Arrival, packet, end_of_stream, try_again, failed, after_packet, take_packet,
  on_recv,
}
use af_ipc.Client.Closing.{close_calls, quiet-append, IsOpen, close-calls}
use af_ipc.Ipc.Receive.First.{first_seq_id, first_incoming, StartsIncoming}
use af_ipc.Client.Orderly.{calm, AreFitting, IsBusy}
use af_ipc.Client.Busy.{take-IsBusy}

-- Between two events.
pub record IsIdle (context : ℕ) (c : Connection) : Type 0 where
  pub opened : IsOpen context c
  pub not_in_receive : c.in_receive ≡ false
  pub not_marked : c.marked ≡ false

-- Freed with one call of the close callback, or alive without one.
abbrev pub IsOrderly : ℕ → Left → Type 0
IsOrderly context (freed, es) = (status : ℤ) × (close_calls es ≡ (status, context) ∷ [])
IsOrderly context (live c, es) = IsIdle context c × (close_calls es ≡ [])

abbrev IsOrderlyRun : ℕ → Run Left → Type 0
IsOrderlyRun context fault = ⊥
IsOrderlyRun context (done r) = IsOrderly context r

pub more-IsOrderly :
    (context : ℕ) (es : List Effect) (r : Left)
    → close_calls es ≡ []
    → IsOrderly context r
    → IsOrderly context (then_more es r)
more-IsOrderly context es (freed, fs) q (status, h) = (status, quiet-append es fs q ∙ h)
more-IsOrderly context es (live c, fs) q h = (h.0, quiet-append es fs q ∙ h.1)

pub closed-IsOrderly :
    (context : ℕ) (status : ℤ) (c : Connection)
    → IsOpen context c
    → IsOrderly context (close_and_free_server status c)
unfolding close_and_free_server
closed-IsOrderly context status c h = (status, close-calls context status c h)

reopened :
    (context : ℕ) (c : Connection)
    → IsOpen context c
    → IsOpen context (record c { in_receive = false; marked = false })
reopened context c h = record {
  has_callback = h.has_callback;
  same_context = h.same_context;
  valid = h.valid;
}

-- The flags after a packet.
after-IsOrderly :
    (context : ℕ) (x : Run Left) (rest : Handle → Run Left)
    → IsBusy context x
    → ((c : Connection) → IsIdle context c → IsOrderlyRun context (rest (live c)))
    → IsOrderlyRun context (x >>= λ (h, es). after_packet rest es h)
unfolding after_packet
after-IsOrderly context fault rest b k = b
after-IsOrderly context (done (freed, es)) rest b k = absurd b
after-IsOrderly context (done (live c, es)) rest b k =
    let c' : Connection = record c { in_receive = false } in
    let h : IsOpen context c' = record {
      has_callback = b.0.has_callback;
      same_context = b.0.same_context;
      valid = b.0.valid;
    } in
    elim (Bool-cases c.marked) [
      | inl marked ↦
          rw (after_packet, marked)
            (more-IsOrderly context es (close_and_free_server status_ok c') b.2
              (closed-IsOrderly context status_ok c' h))
      | inr open_still ↦
          rw (after_packet, open_still)
            (more es (rest (live (record c { in_receive = false; marked = false }))) b.2 (
              k (record c { in_receive = false; marked = false })
                (record {
                  opened = reopened context c b.0;
                  not_in_receive = refl;
                  not_marked = refl;
                })))
    ]
  where
    more :
        (es : List Effect) (x : Run Left)
        → close_calls es ≡ []
        → IsOrderlyRun context x
        → IsOrderlyRun context (x >>= λ r. done (then_more es r))
    more es fault q b' = b'
    more es (done r) q b' = more-IsOrderly context es r q b'

-- What the callbacks do is for sizes that can be sent.
abbrev pub AllFitting : List Arrival → Type 0
AllFitting [] = Unit {0}
AllFitting (packet buf acts ∷ arrivals) =
    ((d : Delivery) → AreFitting (acts d)) × AllFitting arrivals
AllFitting (end_of_stream ∷ arrivals) = AllFitting arrivals
AllFitting (try_again ∷ arrivals) = AllFitting arrivals
AllFitting (failed e ∷ arrivals) = AllFitting arrivals

recv-IsOrderlyRun :
    (r : Request) (context : ℕ) (arrivals : List Arrival) (c : Connection)
    → AllFitting arrivals
    → IsIdle context c
    → IsOrderlyRun context (on_recv (calm r) arrivals (live c))
unfolding on_recv
recv-IsOrderlyRun r context [] c fit h = (h, refl)
recv-IsOrderlyRun r context (packet buf acts ∷ arrivals) c fit h =
    after-IsOrderly context _ (on_recv (calm r) arrivals)
      (take-IsBusy r context acts fit.0 buf c h.opened)
      λ c' h'. recv-IsOrderlyRun r context arrivals c' fit.1 h'
recv-IsOrderlyRun r context (end_of_stream ∷ arrivals) c fit h =
    closed-IsOrderly context status_error c h.opened
recv-IsOrderlyRun r context (failed e ∷ arrivals) c fit h =
    closed-IsOrderly context status_error c h.opened
recv-IsOrderlyRun r context (try_again ∷ arrivals) c fit h = (h, refl)

orderly :
    (context : ℕ) (x : Run Left)
    → IsOrderlyRun context x
    → (q : Left) × (x ≡ done q) × IsOrderly context q
orderly context fault h = absurd h
orderly context (done q) h = (q, refl, h)

-- Provided that every system call of a send succeeds: a receive event of a client with an open socket
-- and a close callback, whatever arrives, in which the callbacks close the connection as often as
-- they like and send messages of sizes that can be sent, returns and never uses the structure after it was freed. It
-- ends with the structure freed and the close callback called exactly once, with its context, or
-- alive with both flags clear and no call.
pub on_recv-IsOrderly :
    (r : Request) (context : ℕ) (arrivals : List Arrival) (c : Connection)
    → AllFitting arrivals
    → IsIdle context c
    → (q : Left) × (on_recv (calm r) arrivals (live c) ≡ done q) × IsOrderly context q
on_recv-IsOrderly r context arrivals c fit h =
    orderly context (on_recv (calm r) arrivals (live c))
      (recv-IsOrderlyRun r context arrivals c fit h)

abbrev Frees : Run Left → Type 0
Frees fault = ⊥
Frees (done (freed, es)) = Unit {0}
Frees (done (live c, es)) = ⊥

freed-fault :
    (rest : Connection → Option (Run Left)) (x : Run Left)
    → Frees x
    → continue_with rest x ≡ some fault
freed-fault rest fault h = absurd h
freed-fault rest (done (freed, es)) h = refl
freed-fault rest (done (live c, es)) h = absurd h

-- The response is refused, and the structure is freed.
module _ (env : Environment) (c : Connection) (buf text : Bytes) (acts : Delivery → List Action)
    (n e : ℕ) (size : ℤ) (start : StartsIncoming buf) (callback : c.receive_callback ≡ true)
    (response : acts (first_incoming 0 buf) ≡ responding n text size ∷ [])
    (valid : is_invalid c.fd ≡ false) (short : too_long size ≡ false)
    (refused : env.sendmsg (make_message n text size) ≡ send_error e) where
  message_fails : Frees (
      take_message env acts
        (first_seq_id buf)
        (take (header_len buf 0 - msghdr_len) (drop 8 buf))
        c)
  unfolding take_message dispatch take_incoming call_all call_one act_all act send_response send
      send_in_time transmit after_send close_and_free_server
  message_fails = rw (start.for_callback, callback, response, valid, short, refused) tt

  loop_fails : (fuel : ℕ) → receive_messages (suc fuel) env acts buf 0 c ≡ some fault
  unfolding receive_messages
  loop_fails fuel =
      rw
        (
          lt→ltb 0 (length buf) (omega (arith, start.has_body)),
          gt→leb (length buf) 8 start.has_body,
          ge→ltb (length buf) (0 + header_len buf 0) (omega (arith, start.inside)),
          ge→ltb (header_len buf 0) 8 start.has_header,
        )
        (freed-fault _ _ message_fails)

-- If a packet starts with a whole request or unsolicited message, for which the receive callback sends
-- a response of a size that can be sent, but the socket refuses it, then the structure is freed under
-- the receive event, which uses it after that: whatever follows in the packet, the event ends in a
-- fault.
pub on_recv_fails :
    (env : Environment) (arrivals : List Arrival) (c : Connection) (buf text : Bytes)
    (acts : Delivery → List Action) (n e : ℕ) (size : ℤ)
    → StartsIncoming buf
    → c.receive_callback ≡ true
    → acts (first_incoming 0 buf) ≡ responding n text size ∷ []
    → is_invalid c.fd ≡ false
    → too_long size ≡ false
    → env.sendmsg (make_message n text size) ≡ send_error e
    → on_recv env (packet buf acts ∷ arrivals) (live c) ≡ fault
unfolding on_recv take_packet after_packet
on_recv_fails env arrivals c buf text acts n e size start callback response valid short refused =
    rw
      (subst (λ k. receive_messages k env acts buf 0 (record c { in_receive = true }) ≡ some fault)
        {x = suc (length buf)} {y = length buf + 1} (omega arith)
        (loop_fails env (record c { in_receive = true }) buf text acts n e size start callback
          response valid short refused (length buf)))
      refl
