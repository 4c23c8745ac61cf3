-- ===== src/Client/Orderly.antt =====
-- The structure of pkg/src/af_ipc_client.c is freed once, and not used afterwards, as long as no send in
-- a callback fails.
use af_ipc.Common.{
  ◌+◌, ℕ, zero, suc, ◌≡◌, refl, ◌∙◌, true, false, Option, none, some, List, [], ◌∷◌, ℤ, pos, negsuc,
  Run, fault, done, ◌>>=◌,
}
use af_ipc.Rpc.Memory.{Bytes}
use af_ipc.Ipc.Requests.{Errno, Request, ReqControl, find_unused_request, gen_seq_id}
use af_ipc.Ipc.Send.{
  Message, Environment, sent_bytes, msghdr_len, send, send_in_time, send_request, register,
  start_timer, transmit, too_long,
}
use af_ipc.Client
use af_ipc.Client.{
  Connection, Handle, live, freed, Effect, sent, free_event, free_timer, shut_both, close_socket,
  call_close, call_receive, Left, status_ok, status_error, is_invalid, has_socket, event_effects,
  socket_effects, callback_effects, close_and_free_server, after_send, message_sent, close,
  send_response, send_unsolicited,
}
use af_ipc.Client.Receive.{
  Action, closing, requesting, responding, notifying, act, act_all, then_more,
}
use af_ipc.Client.Closing.{close_calls, quiet-append, IsOpen}

-- The system calls succeed; `r` is memory for a request.
abbrev pub calm : Request → Environment
calm r = record { slot = some r; timer = none; sendmsg = λ m. sent_bytes (msghdr_len + m.body_len) }

-- A send of a message that is not too long succeeds then.
ok_in_time :
    (r : Request) (rc : ReqControl) (n : ℕ) (buf : Bytes) (size : ℤ) (callback : Option ℕ)
    (context : ℕ) (timeout : ℤ)
    → (send_in_time (calm r) (some rc) n buf size callback context timeout).error ≡ none
unfolding send_in_time send_request register start_timer find_unused_request gen_seq_id transmit
ok_in_time r rc n buf size callback context (pos zero) = refl
ok_in_time r rc n buf size callback context (pos (suc t)) = refl
ok_in_time r rc n buf size callback context (negsuc k) = refl

pub send-ok :
    (r : Request) (rc : ReqControl) (n : ℕ) (buf : Bytes) (size : ℤ) (callback : Option ℕ)
    (context : ℕ) (timeout : ℤ)
    → too_long size ≡ false
    → (send (calm r) (some rc) n buf size callback context timeout).error ≡ none
unfolding send
send-ok r rc n buf size callback context timeout h =
    rw h (ok_in_time r rc n buf size callback context timeout)

pub plain-ok :
    (r : Request) (n : ℕ) (buf : Bytes) (size : ℤ)
    → too_long size ≡ false
    → (send (calm r) none n buf size none 0 (pos 0)).error ≡ none
unfolding send send_in_time transmit
plain-ok r n buf size h = rw h refl

-- The state while a callback runs.
abbrev pub IsBusy : ℕ → Run Left → Type 0
IsBusy context fault = ⊥
IsBusy context (done (freed, es)) = ⊥
IsBusy context (done (live c, es)) =
    IsOpen context c × (c.in_receive ≡ true) × (close_calls es ≡ [])

sent-quiet : (m : Option Message) → close_calls (message_sent m) ≡ []
sent-quiet none = refl
sent-quiet (some m) = refl

after_send-IsBusy :
    (context : ℕ) (c : Connection) (e : Option Errno) (control : Option ReqControl)
    (m : Option Message)
    → IsOpen context c
    → c.in_receive ≡ true
    → e ≡ none
    → IsBusy context (done (after_send c e control m).1)
unfolding after_send
after_send-IsBusy context c none control m h busy ok = (
  record { has_callback = h.has_callback; same_context = h.same_context; valid = h.valid },
  busy,
  sent-quiet m,
)
after_send-IsBusy context c (some e) control m h busy ok = cc ok

-- The sizes are ones that can be sent.
abbrev pub IsFitting : Action → Type 0
IsFitting closing = Unit {0}
IsFitting (requesting buf size callback context timeout) = too_long size ≡ false
IsFitting (responding n buf size) = too_long size ≡ false
IsFitting (notifying buf size) = too_long size ≡ false

abbrev pub AreFitting : List Action → Type 0
AreFitting [] = Unit {0}
AreFitting (a ∷ as') = IsFitting a × AreFitting as'

act-IsBusy :
    (r : Request) (context : ℕ) (a : Action) (c : Connection)
    → IsFitting a
    → IsOpen context c
    → c.in_receive ≡ true
    → IsBusy context (act (calm r) a (live c))
unfolding act close af_ipc.Client.send_request send_response send_unsolicited
act-IsBusy r context closing c fit h busy =
    rw (act, close, busy)
      (
        record { has_callback = h.has_callback; same_context = h.same_context; valid = h.valid },
        refl,
        refl,
      )
act-IsBusy r context (requesting buf size callback k timeout) c fit h busy = rw h.valid (
    after_send-IsBusy context c _ _ _ h busy
      (send-ok r c.req_control 0 buf size callback k timeout fit))
act-IsBusy r context (responding n buf size) c fit h busy =
    rw h.valid (after_send-IsBusy context c _ _ _ h busy (plain-ok r n buf size fit))
act-IsBusy r context (notifying buf size) c fit h busy =
    rw h.valid (after_send-IsBusy context c _ _ _ h busy (plain-ok r 0 buf size fit))

-- One result after another.
pub then-IsBusy :
    (context : ℕ) (x : Run Left) (rest : Handle → Run Left)
    → IsBusy context x
    → ((c : Connection) → IsOpen context c → c.in_receive ≡ true → IsBusy context (rest (live c)))
    → IsBusy context (x >>= λ (h, es). rest h >>= λ r. done (then_more es r))
then-IsBusy context fault rest b k = b
then-IsBusy context (done (freed, es)) rest b k = absurd b
then-IsBusy context (done (live c, es)) rest b k = more es (rest (live c)) b.2 (k c b.0 b.1)
  where
    more :
        (es : List Effect) (x : Run Left)
        → close_calls es ≡ []
        → IsBusy context x
        → IsBusy context (x >>= λ r. done (then_more es r))
    more es fault q b' = b'
    more es (done (freed, fs)) q b' = b'
    more es (done (live c', fs)) q b' = (b'.0, b'.1, quiet-append es fs q ∙ b'.2)

pub act_all-IsBusy :
    (r : Request) (context : ℕ) (as' : List Action) (c : Connection)
    → AreFitting as'
    → IsOpen context c
    → c.in_receive ≡ true
    → IsBusy context (act_all (calm r) as' (live c))
unfolding act_all
act_all-IsBusy r context [] c fit h busy = (h, busy, refl)
act_all-IsBusy r context (a ∷ as') c fit h busy =
    then-IsBusy context (act (calm r) a (live c)) (act_all (calm r) as')
      (act-IsBusy r context a c fit.0 h busy)
      λ c' h' busy'. act_all-IsBusy r context as' c' fit.1 h' busy'
