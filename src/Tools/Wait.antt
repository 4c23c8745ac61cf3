-- ===== src/Tools/Wait.antt =====
-- The main function of pkg/src/ipc_wait.c.
pub mod Orderly
use af_ipc.Common.{
  ℕ, zero, suc, ◌+◌, Bool, true, false, ◌&&◌, Option, none, some, List, [], ◌∷◌, ◌==◌,
  if◌then◌else◌, ℤ, pos, negsuc, Run, fault, done, ◌>>=◌, length,
}
use af_ipc.Rpc.Memory.{Bytes}
use af_ipc.Ipc.Send.{Environment}
use af_ipc.Client.{Connection, Handle, live, Effect}
use af_ipc.Client.Open.{Opening, Opened, open_server}
use af_ipc.Tools.Text.{atoi}
use af_ipc.Tools.Print.{print_reply}
use af_ipc.Tools.Process.{Process, new_process, Event, on_event, close_server}

-- strcmp(s, "-t") == 0
abbrev is_timeout_option : Bytes → Bool
is_timeout_option (a ∷ (b ∷ [])) = a == 45 && b == 116
is_timeout_option s = false

-- sName and the timeout in seconds, or the usage.
unfoldable pub parse_arguments : List Bytes → Option (Bytes × ℤ)
parse_arguments (program ∷ (server ∷ [])) = some (server, pos 10)
parse_arguments (program ∷ (server ∷ (option ∷ (timeout ∷ [])))) =
    if is_timeout_option option then some (server, atoi timeout) else none
parse_arguments argv = none

unfoldable pub event_base_dispatch : Environment → List Event → Process → Run Process
unfolding on_event
event_base_dispatch env [] p = done p
event_base_dispatch env (e ∷ es) p = on_event env e p >>= event_base_dispatch env es

-- The exit code, what is printed on success, and what the end of the connection does.
pub record Outcome : Type 0 where
  pub ret_val : ℕ
  pub output : Option Bytes
  pub closing : List Effect

abbrev failed : Outcome
failed = record { ret_val = 1; output = none; closing = [] }

-- From the label `exit` on.
abbrev pub finish : Process → Option Bytes → Run Outcome
finish p none = close_server p >>= λ es. done (record { ret_val = 1; output = none; closing = es })
finish p (some text) =
    close_server p >>= λ es. done (record { ret_val = 0; output = some text; closing = es })

-- Behind the event loop; `address` is that of outBuffer.
unfoldable pub after_loop : ℕ → Process → Run Outcome
unfolding print_reply close_server
after_loop address p =
    if p.data_received
    then print_reply address p.out_buffer (pos p.out_buffer_size) >>= finish p
    else finish p none

-- With the connection, or NULL.
unfoldable pub run_loop : ℕ → Environment → List Event → Option Connection → Run Outcome
unfolding event_base_dispatch after_loop
run_loop address env events none = done failed
run_loop address env events (some c) =
    event_base_dispatch env events (new_process (some (live c))) >>= after_loop address

-- The timeout only sets the timer. Without an event base nothing is opened.
abbrev pub wait_for :
    ℕ → Opening → Bytes → Environment → List Event → Option (Bytes × ℤ) → Run Outcome
wait_for address o prefix env events none = done failed
wait_for address o prefix env events (some (name, timeout)) =
    if o.base
    then open_server o prefix name true 0 true >>= (λ r. run_loop address env events r.0)
    else done failed

unfoldable pub main : ℕ → Opening → Bytes → Environment → List Event → List Bytes → Run Outcome
unfolding parse_arguments open_server run_loop
main address o prefix env events argv = wait_for address o prefix env events (parse_arguments argv)
