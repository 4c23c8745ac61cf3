-- ===== src/Client/Closing.antt =====
-- What close_and_free_server of pkg/src/af_ipc_client.c calls.
use af_ipc.Common.{
  ℕ, ◌≡◌, refl, ap, ◌∙◌, Bool, true, false, List, [], ◌∷◌, ◌++◌, if◌then◌else◌, ℤ, map,
}
use af_ipc.Ipc.Requests.{shutdown_requests}
use af_ipc.Ipc.Receive.{Delivery}
use af_ipc.Client.{
  Connection, Effect, sent, free_event, free_timer, shut_both, close_socket, call_close,
  call_receive, is_invalid, has_socket, event_effects, socket_effects, callback_effects,
  close_and_free_server,
}

-- The calls of the close callback.
abbrev pub close_calls : List Effect → List (ℤ × ℕ)
close_calls [] = []
close_calls (call_close status context ∷ es) = (status, context) ∷ close_calls es
close_calls (e ∷ es) = close_calls es

close_calls-append :
    (es fs : List Effect) → close_calls (es ++ fs) ≡ close_calls es ++ close_calls fs
close_calls-append [] fs = refl
close_calls-append (sent m ∷ es) fs = close_calls-append es fs
close_calls-append (free_event ∷ es) fs = close_calls-append es fs
close_calls-append (free_timer n ∷ es) fs = close_calls-append es fs
close_calls-append (shut_both fd ∷ es) fs = close_calls-append es fs
close_calls-append (close_socket fd ∷ es) fs = close_calls-append es fs
close_calls-append (call_receive d ∷ es) fs = close_calls-append es fs
close_calls-append (call_close status context ∷ es) fs =
    ap (◌∷◌ (status, context)) (close_calls-append es fs)

pub quiet-append :
    (es fs : List Effect) → close_calls es ≡ [] → close_calls (es ++ fs) ≡ close_calls fs
quiet-append es fs h = close_calls-append es fs ∙ ap (λ xs. xs ++ close_calls fs) h

timers-quiet : (ns : List ℕ) → close_calls (map free_timer ns) ≡ []
timers-quiet [] = refl
timers-quiet (n ∷ ns) = timers-quiet ns

pub receives-quiet : (ds : List Delivery) → close_calls (map call_receive ds) ≡ []
receives-quiet [] = refl
receives-quiet (d ∷ ds) = receives-quiet ds

event-quiet : (b : Bool) → close_calls (if b then free_event ∷ [] else []) ≡ []
event-quiet true = refl
event-quiet false = refl

socket-quiet :
    (b : Bool) (fd : ℤ) (ns : List ℕ)
    → close_calls (if b then map free_timer ns ++ (shut_both fd ∷ close_socket fd ∷ []) else [])
      ≡ []
socket-quiet true fd ns = quiet-append (map free_timer ns) _ (timers-quiet ns)
socket-quiet false fd ns = refl

-- A connection with a close callback, whose socket is open.
pub record IsOpen (context : ℕ) (c : Connection) : Type 0 where
  pub has_callback : c.close_callback ≡ true
  pub same_context : c.context ≡ context
  pub valid : is_invalid c.fd ≡ false

pub close-calls :
    (context : ℕ) (status : ℤ) (c : Connection)
    → IsOpen context c
    → close_calls (close_and_free_server status c).1 ≡ (status, context) ∷ []
unfolding close_and_free_server socket_effects
close-calls context status c h =
    quiet-append (event_effects c) (socket_effects c ++ callback_effects status c)
      (event-quiet c.event)
    ∙ quiet-append (socket_effects c) (callback_effects status c)
        (socket-quiet (has_socket c.fd) c.fd (shutdown_requests c.req_control).1)
    ∙ ap (λ b. close_calls (if b then call_close status c.context ∷ [] else [])) h.has_callback
    ∙ ap (λ k. (status, k) ∷ []) h.same_context
