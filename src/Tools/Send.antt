-- ===== src/Tools/Send.antt =====
-- The main function of pkg/src/ipc_send.c and ipc_send_wrapper.
pub mod Orderly
pub mod Asked
pub mod Answered
use af_ipc.Common.{
  ℕ, zero, suc, ◌+◌, ◌^◌, Bool, true, false, ◌||◌, Option, none, some, List, [], ◌∷◌, ◌++◌, ltb,
  ◌==◌, if◌then◌else◌, ℤ, pos, negsuc, Run, fault, done, ◌>>=◌, length,
}
use af_ipc.Rpc.Memory.{Bytes}
use af_ipc.Rpc.Types.{Result, ok, err}
use af_ipc.Rpc.Add.{Written}
use af_ipc.Rpc.Params.Create.{create_buffer_with_params}
use af_ipc.Ipc.Send.{Environment}
use af_ipc.Client.{Connection, Handle, live, Effect, send_request}
use af_ipc.Client.Open.{Opening, Opened, open_server}
use af_ipc.Tools.Format.{Status, send_ok, send_err}
use af_ipc.Tools.Parser.{Statics, new_statics, param_parser}
use af_ipc.Tools.Blocks.{dealloc_params}
use af_ipc.Tools.Print.{zeros, print_reply}
use af_ipc.Tools.Process.{Process, new_process, Event, on_event, take_left, close_server}

-- With txBuffer.
pub record Sender : Type 0 where
  pub process : Process
  pub tx_buffer : Bytes

-- The request, if the connection is there; the callback bears the number 0.
unfoldable pub send_tx : Environment → Bytes → ℕ → Process → Run Process
unfolding send_request take_left
send_tx env tx size p = elim p.server [
  | none ↦ done p
  | some h ↦ send_request env h tx (pos size) (some 0) 0 (pos 3000) >>= λ r. take_left p r.1
]

abbrev pub tx_memory : Bytes → Option Bytes → Bytes
tx_memory old none = old
tx_memory old (some tx) = tx

abbrev pub on_created : Environment → Sender → Written → Run Sender
on_created env x (err e, tx) = done (record x { tx_buffer = tx_memory x.tx_buffer tx })
on_created env x (ok size, tx) =
    let tx' = tx_memory x.tx_buffer tx in
    (if ltb 0 size then send_tx env tx' size x.process else done x.process) >>= λ p.
    done (record { process = p; tx_buffer = tx' })

unfoldable pub ipc_send_wrapper : Environment → Statics → Sender → Run Sender
unfolding send_tx
ipc_send_wrapper env s x =
    create_buffer_with_params (some x.tx_buffer) (pos 256) (some s.in_params) (pos s.num_in_params)
    >>= on_created env x

-- The timer that sends the request, or another event.
pub data SendEvent : Type 0 where
  send_due : SendEvent
  other : Event → SendEvent

abbrev pub on_send_event : Environment → Statics → SendEvent → Sender → Run Sender
on_send_event env s send_due x = ipc_send_wrapper env s x
on_send_event env s (other e) x = on_event env e x.process >>= λ p. done (record x { process = p })

-- The events that are dispatched until the loop ends, in their order.
unfoldable pub event_base_dispatch : Environment → Statics → List SendEvent → Sender → Run Sender
unfolding ipc_send_wrapper on_event
event_base_dispatch env s [] x = done x
event_base_dispatch env s (e ∷ es) x = on_send_event env s e x >>= event_base_dispatch env s es

-- The exit code, what is printed on success, the blocks that are freed, and what the end of the
-- connection does.
pub record Outcome : Type 0 where
  pub ret_val : ℕ
  pub output : Option Bytes
  pub freed_blocks : List ℕ
  pub closing : List Effect

-- From the label `exit` on.
abbrev pub finish : Statics → Process → Option Bytes → Run Outcome
finish s p output = close_server p >>= λ es. done (record {
  ret_val = elim output [ none ↦ 1 | some text ↦ 0 ];
  output = output;
  freed_blocks = (dealloc_params s.in_params).0;
  closing = es;
})

-- Behind the event loop; `address` is that of outBuffer.
unfoldable pub after_loop : ℕ → Statics → Process → Run Outcome
unfolding print_reply close_server dealloc_params
after_loop address s p =
    if p.data_received
    then print_reply address p.out_buffer (pos p.out_buffer_size) >>= finish s p
    else finish s p none

abbrev pub failed : Statics → Outcome
failed s = record {
  ret_val = 1;
  output = none;
  freed_blocks = (dealloc_params s.in_params).0;
  closing = [];
}

-- With the connection, or NULL.
unfoldable pub run_loop :
    ℕ → Environment → List SendEvent → Statics → Option Connection → Run Outcome
unfolding event_base_dispatch after_loop
run_loop address env events s none = done (failed s)
run_loop address env events s (some c) =
    event_base_dispatch env s events
      (record { process = new_process (some (live c)); tx_buffer = zeros 256 })
    >>= λ x. after_loop address s x.process

-- The name is not NULL after a successful parse; without an event base nothing is opened.
abbrev pub connect_server :
    ℕ → Opening → Bytes → Environment → List SendEvent → Statics → Option Bytes → Run Outcome
connect_server address o prefix env events s none = fault
connect_server address o prefix env events s (some name) =
    if o.base
    then open_server o prefix name false 0 true >>= (λ r. run_loop address env events s r.0)
    else done (failed s)

abbrev pub with_params :
    ℕ → Opening → Bytes → Environment → List SendEvent → Status × Statics → Run Outcome
with_params address o prefix env events (send_err, s) = done (failed s)
with_params address o prefix env events (send_ok, s) =
    if s.num_in_params == 0
    then done (failed s)
    else connect_server address o prefix env events s s.name

unfoldable pub main :
    (ℕ → ℕ) → ℕ → Opening → Bytes → Environment → List SendEvent → List Bytes → Run Outcome
unfolding param_parser open_server run_loop
main malloc address o prefix env events argv =
    param_parser malloc argv new_statics >>= with_params address o prefix env events
