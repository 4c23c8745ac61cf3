-- ===== src/Tools/Wait/Orderly.antt =====
-- The event loop of pkg/src/ipc_wait.c, and the end of the connection.
use af_ipc.Common.{◌≡◌, List, [], ◌∷◌, some, done, Returns, Returns-done, >>=-Returns}
use af_ipc.Ipc.Send.{Environment}
use af_ipc.Client.{Connection, live, Effect}
use af_ipc.Client.Closing.{close_calls}
use af_ipc.Client.Life.{IsIdle}
use af_ipc.Tools.Process.{Process, new_process, Event, on_event, close_server}
use af_ipc.Tools.Process.Sound.{
  IsSound, IsShortEvent, event-IsSound, closing_calls, close_server-once, new-IsSound,
}
use af_ipc.Tools.Wait.{event_base_dispatch}

abbrev pub AllShortEvents : List Event → Type 0
AllShortEvents [] = Unit {0}
AllShortEvents (e ∷ es) = IsShortEvent e × AllShortEvents es

events-IsSound :
    (env : Environment) (events : List Event) (p : Process)
    → AllShortEvents events
    → IsSound p
    → Returns IsSound (event_base_dispatch env events p)
unfolding event_base_dispatch
events-IsSound env [] p short h = h
events-IsSound env (e ∷ events) p short h =
    >>=-Returns IsSound IsSound (on_event env e p) _ (event-IsSound env e p short.0 h)
      λ p' h'. events-IsSound env events p' short.1 h'

-- Whatever events ipc_wait's loop dispatches, in which order and with which answers of the system
-- calls, as long as each packet has at most 264 bytes (so that a message fits in outBuffer, which the code does not check): it never
-- writes outside outBuffer nor uses the connection after it was freed. At the end the pointer to the
-- server is NULL, if the library has freed the connection, and then nothing is closed, or the
-- connection is between two events, and af_ipcc_close frees it with one call of the close callback.
pub event_base_dispatch-IsSound :
    (env : Environment) (events : List Event) (c : Connection)
    → AllShortEvents events
    → IsIdle 0 c
    → (p : Process) × (es : List Effect) × (event_base_dispatch env events
          (new_process (some (live c)))
        ≡ done p)
      × IsSound p
      × (close_server p ≡ done es)
      × (close_calls es ≡ closing_calls p.server)
event_base_dispatch-IsSound env events c short h =
    let (p, e, sound) =
      Returns-done IsSound (event_base_dispatch env events (new_process (some (live c))))
        (events-IsSound env events (new_process (some (live c))) short (new-IsSound c h)) in
    let (es, e', calls) = close_server-once p sound in (p, es, e, sound, e', calls)
