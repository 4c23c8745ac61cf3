-- ===== src/Tools/Process/Sound.antt =====
-- The static variables of pkg/src/ipc_send.c and pkg/src/ipc_wait.c in the event loop, and the
-- connection, which is closed once.
use af_ipc.Common.{
  ℕ, zero, suc, ◌≤◌, ◌≡◌, refl, ap, sym, subst, ◌∙◌, Option, none, some, List, [], ◌∷◌, arith, ℤ,
  done, Returns, >>=-Returns, Returns-mono, Returns-done, length,
}
use af_ipc.Rpc.Memory.{Bytes, store-Returns}
use af_ipc.Ipc.Requests.{Request, find_pending}
use af_ipc.Ipc.Send.{Environment}
use af_ipc.Client.{
  Connection, Handle, live, freed, Effect, sent, free_event, free_timer, shut_both, close_socket,
  call_close, call_receive, Left, status_ok, close,
}
use af_ipc.Client.Receive.{on_recv, Arrival}
use af_ipc.Client.Closing.{close_calls, close-calls}
use af_ipc.Client.Life.{IsIdle}
use af_ipc.Tools.Process.{
  Process, new_process, handle_receive, handle_close, payload, take_effect, take_effects, take_left,
  all_passive, Event, readable, request_timeout, tool_timeout, on_event, close_server, timed_out,
}
use af_ipc.Tools.Print.{zeros}
use af_ipc.Tools.Process.Calls.{AllFit, AllShort, IsLeft, recv-IsLeft}

-- outBuffer has its size, and the data are inside.
abbrev pub HasBuffer : Process → Type 0
HasBuffer p = (length p.out_buffer ≡ 256) × (p.out_buffer_size ≤ 256)

-- NULL, or a connection between two events.
abbrev pub IsServer : Option Handle → Type 0
IsServer none = Unit {0}
IsServer (some freed) = ⊥
IsServer (some (live c)) = IsIdle 0 c

abbrev pub IsSound : Process → Type 0
IsSound p = HasBuffer p × IsServer p.server

receive-Returns :
    (bytes : Bytes) (p : Process)
    → length bytes ≤ 256
    → HasBuffer p
    → Returns (λ p'. HasBuffer p' × (p'.server ≡ p.server)) (handle_receive (some bytes) p)
unfolding handle_receive
receive-Returns bytes p fits h =
    let (b, e, l) = store-Returns p.out_buffer 0 bytes (omega (arith, h.0)) in
    rw e ((l ∙ h.0, fits), refl)

-- The pointer after the calls of the close callback.
abbrev after_calls : List (ℤ × ℕ) → Option Handle → Option Handle
after_calls [] server = server
after_calls (c ∷ cs) server = none

after_none : (cs : List (ℤ × ℕ)) → after_calls cs none ≡ none
after_none [] = refl
after_none (c ∷ cs) = refl

abbrev IsAfter : List Effect → Option Handle → Process → Type 0
IsAfter es server p = HasBuffer p × (p.server ≡ after_calls (close_calls es) server)

effects-Returns :
    (es : List Effect) (p : Process)
    → AllFit es
    → HasBuffer p
    → Returns (IsAfter es p.server) (take_effects es p)
unfolding take_effects take_effect
effects-Returns [] p fit h = (h, refl)
effects-Returns (call_receive d ∷ es) p fit h =
    >>=-Returns (λ p'. HasBuffer p' × (p'.server ≡ p.server)) (IsAfter es p.server)
      (handle_receive (some (payload d)) p) _ (receive-Returns (payload d) p fit.0 h)
      λ p' h'.
        subst (λ s. Returns (IsAfter es s) (take_effects es p')) h'.1
          (effects-Returns es p' fit.1 h'.0)
effects-Returns (call_close status context ∷ es) p fit h =
    subst (λ s. Returns (λ q. HasBuffer q × (q.server ≡ s)) (take_effects es (handle_close p)))
      (after_none (close_calls es)) (effects-Returns es (handle_close p) fit h)
effects-Returns (sent m ∷ es) p fit h = effects-Returns es p fit h
effects-Returns (free_event ∷ es) p fit h = effects-Returns es p fit h
effects-Returns (free_timer n ∷ es) p fit h = effects-Returns es p fit h
effects-Returns (shut_both fd ∷ es) p fit h = effects-Returns es p fit h
effects-Returns (close_socket fd ∷ es) p fit h = effects-Returns es p fit h

-- What a call of the library leaves.
pub left-IsSound :
    (p : Process) (q : Left) → IsLeft 0 q → HasBuffer p → Returns IsSound (take_left p q)
unfolding take_left
left-IsSound p (freed, es) ((status, closed), fit) h =
    Returns-mono (IsAfter es (some freed)) IsSound
      (take_effects es (record p { server = some freed }))
      (effects-Returns es (record p { server = some freed }) fit h)
      λ p' h'.
        (h'.0, subst IsServer (sym (h'.1 ∙ ap (λ cs. after_calls cs (some freed)) closed)) tt)
left-IsSound p (live c, es) ((idle, closed), fit) h =
    Returns-mono (IsAfter es (some (live c))) IsSound
      (take_effects es (record p { server = some (live c) }))
      (effects-Returns es (record p { server = some (live c) }) fit h)
      λ p' h'.
        (h'.0, subst IsServer (sym (h'.1 ∙ ap (λ cs. after_calls cs (some (live c))) closed)) idle)

-- The events, whose packets fit in outBuffer.
abbrev pub IsShortEvent : Event → Type 0
IsShortEvent (readable arrivals) = AllShort arrivals
IsShortEvent (request_timeout id) = Unit {0}
IsShortEvent tool_timeout = Unit {0}

module _ (env : Environment) where
  readable-IsSound :
      (arrivals : List Arrival) (p : Process) (server : Option Handle)
      → p.server ≡ server
      → AllShort arrivals
      → HasBuffer p
      → IsServer server
      → Returns IsSound (on_event env (readable arrivals) p)
  unfolding on_event
  readable-IsSound arrivals p none e short h i = rw e (h, i)
  readable-IsSound arrivals p (some freed) e short h i = absurd i
  readable-IsSound arrivals p (some (live c)) e short h i = rw e (
      >>=-Returns (IsLeft 0) IsSound (on_recv env (all_passive arrivals) (live c)) _
        (recv-IsLeft 0 env arrivals c short i) λ q l. left-IsSound p q l h)

  timed_out-IsSound :
      (r : Option Request) (c : Connection) (p : Process)
      → p.server ≡ some (live c)
      → HasBuffer p
      → IsIdle 0 c
      → Returns IsSound (timed_out r c p)
  unfolding handle_receive
  timed_out-IsSound none c p e h i = (h, subst IsServer (sym e) i)
  timed_out-IsSound (some r) c p e h i = (
    h,
    record {
      opened = record {
        has_callback = i.opened.has_callback;
        same_context = i.opened.same_context;
        valid = i.opened.valid;
      };
      not_in_receive = i.not_in_receive;
      not_marked = i.not_marked;
    },
  )

  timeout-IsSound :
      (id : ℕ) (p : Process) (server : Option Handle)
      → p.server ≡ server
      → HasBuffer p
      → IsServer server
      → Returns IsSound (on_event env (request_timeout id) p)
  unfolding on_event
  timeout-IsSound id p none e h i = rw e (h, i)
  timeout-IsSound id p (some freed) e h i = absurd i
  timeout-IsSound id p (some (live c)) e h i = rw e (
      timed_out-IsSound (find_pending id c.req_control.pending) c
        (record p { server = some (live c) }) refl h i)

  pub event-IsSound :
      (e : Event) (p : Process) → IsShortEvent e → IsSound p → Returns IsSound (on_event env e p)
  unfolding on_event
  event-IsSound (readable arrivals) p short h =
      readable-IsSound arrivals p p.server refl short h.0 h.1
  event-IsSound (request_timeout id) p short h = timeout-IsSound id p p.server refl h.0 h.1
  event-IsSound tool_timeout p short h = h

-- The end: the connection is closed if it is still there.
abbrev pub closing_calls : Option Handle → List (ℤ × ℕ)
closing_calls none = []
closing_calls (some h) = (status_ok, 0) ∷ []

close-once :
    (p : Process) (server : Option Handle)
    → p.server ≡ server
    → IsServer server
    → Returns (λ es. close_calls es ≡ closing_calls server) (close_server p)
unfolding close_server close
close-once p none e i = rw e refl
close-once p (some freed) e i = absurd i
close-once p (some (live c)) e i = rw (e, i.not_in_receive) (close-calls 0 status_ok c i.opened)

-- The effects of the end.
pub close_server-once :
    (p : Process)
    → IsSound p
    → (es : List Effect) × (close_server p ≡ done es) × (close_calls es ≡ closing_calls p.server)
close_server-once p h =
    Returns-done (λ es. close_calls es ≡ closing_calls p.server) (close_server p)
      (close-once p p.server refl h.1)

pub length-zeros : (n : ℕ) → length (zeros n) ≡ n
length-zeros zero = refl
length-zeros (suc n) = omega (arith, length-zeros n)

-- The process with a connection that is ready for its events.
pub new-IsSound : (c : Connection) → IsIdle 0 c → IsSound (new_process (some (live c)))
new-IsSound c h = ((length-zeros 256, omega arith), h)
