-- ===== src/Tools/Send/Answered.antt =====
-- A whole run of pkg/src/ipc_send.c, from the command line to the printed reply.
use af_ipc.Common.{
  ℕ, ◌+◌, ◌*◌, ◌^◌, ◌≤◌, ◌<◌, ◌≡◌, ◌≢◌, refl, ap, sym, subst, ◌∙◌, arith, true, false, some, List,
  [], ◌∷◌, map, ℤ, ne→==, lt→ltb, done, Returns, Returns-done, length, length-append, length-drop,
  drop,
}
use af_ipc.Rpc.Memory.{Bytes}
use af_ipc.Rpc.Items.{Item, blob, AllItems, encode_all}
use af_ipc.Rpc.Params.Placed.{AreParams}
use af_ipc.Rpc.Params.Written.{create-Contains}
use af_ipc.Ipc.Requests.{Request, next_seq_id}
use af_ipc.Ipc.Receive.Stream.{wire}
use af_ipc.Ipc.Receive.Exchange.{whole}
use af_ipc.Client.{Connection, Effect, live, status_ok}
use af_ipc.Ipc.Send.{Environment}
use af_ipc.Client.Receive.{packet}
use af_ipc.Client.Receive.Quiet.{passive_acts}
use af_ipc.Client.Closing.{close_calls}
use af_ipc.Client.Orderly.{calm}
use af_ipc.Client.Life.{IsIdle}
use af_ipc.Client.Open.{Opening, open_server, IsOpening, open_server-IsReady}
use af_ipc.Tools.Arguments.{AllArguments, arguments}
use af_ipc.Tools.Arguments.Loop.{param_parser-arguments}
use af_ipc.Tools.Deliver.{arguments-AllItems}
use af_ipc.Tools.Parser.{Statics}
use af_ipc.Tools.Print.{zeros}
use af_ipc.Tools.Print.Blobs.{length-zeros}
use af_ipc.Tools.Print.Blobs.Joined.{joined, AllSmall}
use af_ipc.Tools.Process.{Process, new_process, readable, on_event, close_server}
use af_ipc.Tools.Process.Sound.{IsSound, close_server-once}
use af_ipc.Tools.Send.{
  Outcome, SendEvent, send_due, other, ipc_send_wrapper, event_base_dispatch, after_loop, run_loop,
  finish, main, connect_server,
}
use af_ipc.Tools.Send.Asked.{
  asking, replied, encoded, send_tx-asking, reply-replied, print_reply-blobs,
}

-- The timer that sends the request, and a reply in a packet of its own.
abbrev pub exchange : ℕ → Bytes → List SendEvent
exchange n answer =
    send_due ∷ (other (readable (packet (wire (whole n answer)) passive_acts ∷ [])) ∷ [])

first_id : next_seq_id 0 ≡ 1
unfolding next_seq_id
first_id = refl

event_base_dispatch-replied :
    (slot : Request) (s : Statics) (xs : List Item) (c : Connection) (client_id : ℕ)
    (answer : Bytes)
    → AllItems xs
    → AreParams xs s.in_params
    → s.num_in_params ≡ length xs
    → 2 + length (encode_all xs) ≤ 256
    → IsIdle 0 c
    → c.req_control.last_seq_id ≡ 0
    → client_id < 2 ^ 16
    → 0 < length answer
    → length answer ≤ 256
    → (tx : Bytes) × (event_base_dispatch
          (calm slot)
          s
          (exchange (client_id * 2 ^ 16 + 1) answer)
          (record { process = new_process (some (live c)); tx_buffer = zeros 256 })
        ≡ done (record { process = replied c answer; tx_buffer = tx }))
unfolding event_base_dispatch ipc_send_wrapper
event_base_dispatch-replied slot s xs c client_id answer items params number fits idle fresh hc
      some_bytes inside =
    let k = 2 + length (encode_all xs) in
    let (tx, e, contains, l) =
      create-Contains xs s.in_params 256 k (zeros 256) items params refl fits
        (omega (arith, length-zeros 256)) in
    let id : next_seq_id c.req_control.last_seq_id ≡ 1 = ap next_seq_id fresh ∙ first_id in
    let received =
      subst
        (λ n.
          on_event (calm slot)
            (readable (packet (wire (whole (client_id * 2 ^ 16 + n) answer)) passive_acts ∷ []))
            (new_process (some (live (asking c))))
          ≡ done (replied c answer))
        id
        (reply-replied (calm slot) c client_id answer idle hc (omega (arith, fresh)) some_bytes
          inside) in
    (
      tx,
      rw (number, e, lt→ltb 0 k (omega arith), send_tx-asking slot tx k c idle fits, received) refl,
    )

replied-IsSound :
    (c : Connection) (answer : Bytes)
    → IsIdle 0 c
    → length answer ≤ 256
    → IsSound (replied c answer)
replied-IsSound c answer h fits = (
  (
    omega (
      arith,
      length-append answer (drop (length answer) (zeros 256)),
      length-drop (length answer) (zeros 256),
      length-zeros 256,
    ),
    fits,
  ),
  record {
    opened = record {
      has_callback = h.opened.has_callback;
      same_context = h.opened.same_context;
      valid = h.opened.valid;
    };
    not_in_receive = refl;
    not_marked = refl;
  },
)

-- The result of a run: success, the text, and one call of the close callback at the end.
abbrev pub IsPrinted : Bytes → Outcome → Type 0
IsPrinted text x =
    (x.ret_val ≡ 0) × (x.output ≡ some text) × (close_calls x.closing ≡ (status_ok, 0) ∷ [])

finish-IsPrinted :
    (s : Statics) (p : Process) (text : Bytes) (es : List Effect)
    → close_server p ≡ done es
    → close_calls es ≡ (status_ok, 0) ∷ []
    → Returns (IsPrinted text) (finish s p (some text))
finish-IsPrinted s p text es closed calls = rw closed (refl, refl, calls)

connected :
    (address : ℕ) (o : Opening) (prefix name : Bytes) (env : Environment) (events : List SendEvent)
    (s : Statics) (c : Connection) (fds : List ℤ)
    → o.base ≡ true
    → open_server o prefix name false 0 true ≡ done (some c, fds)
    → connect_server address o prefix env events s (some name)
      ≡ run_loop address env events s (some c)
connected address o prefix name env events s c fds base opened = rw (opened, base) refl

module _ (address client_id : ℕ) (slot : Request) (v : Bytes) (vs : List Bytes)
    (small : AllSmall (v ∷ vs)) (few : length vs < 16)
    (inside : length (encoded (blob v ∷ map blob vs)) ≤ 256) (room : length (joined v vs) < 255)
    (hc : client_id < 2 ^ 16) where
  run_loop-IsPrinted :
      (s : Statics) (xs : List Item) (c : Connection)
      → AllItems xs
      → AreParams xs s.in_params
      → s.num_in_params ≡ length xs
      → 2 + length (encode_all xs) ≤ 256
      → IsIdle 0 c
      → c.req_control.last_seq_id ≡ 0
      → Returns (IsPrinted (joined v vs)) (
          run_loop address
            (calm slot)
            (exchange (client_id * 2 ^ 16 + 1) (encoded (blob v ∷ map blob vs)))
            s
            (some c))
  unfolding run_loop after_loop
  run_loop-IsPrinted s xs c items params number fits idle fresh =
      let answer = encoded (blob v ∷ map blob vs) in
      let (tx, e) =
        event_base_dispatch-replied slot s xs c client_id answer items params number fits idle fresh
          hc (omega arith) inside in
      let (es, closed, calls) =
        close_server-once (replied c answer) (replied-IsSound c answer idle inside) in
      rw (e, print_reply-blobs address v vs small few inside room)
        (finish-IsPrinted s (replied c answer) (joined v vs) es closed calls)

-- A run of ipc_send whose command line writes from one to sixteen parameters of at most 256 bytes in
-- all when encoded, while the memory, the connection and the sending succeed and the path fits in its
-- buffer: when the timer is due and the server's reply, blobs of at most 256 bytes in all when encoded
-- and of less than 255 characters when printed, arrives with the number of the request, ipc_send
-- prints the blobs in hexadecimal with spaces between them, ends with success, and closes the
-- connection with one call of the close callback.
pub main-IsPrinted :
    (malloc : ℕ → ℕ) (address : ℕ) (o : Opening) (prefix program server : Bytes) (slot : Request)
    (client_id : ℕ) (xs : List Item) (v : Bytes) (vs : List Bytes) (c : Connection) (fds : List ℤ)
    → ((k : ℕ) → malloc k ≢ 0)
    → AllArguments xs
    → 0 < length xs
    → length xs ≤ 16
    → 2 + length (encode_all xs) ≤ 256
    → o.base ≡ true
    → length prefix + length server < 128
    → open_server o prefix server false 0 true ≡ done (some c, fds)
    → client_id < 2 ^ 16
    → AllSmall (v ∷ vs)
    → length vs < 16
    → length (encoded (blob v ∷ map blob vs)) ≤ 256
    → length (joined v vs) < 255
    → (x : Outcome) × (main malloc address o prefix
          (calm slot)
          (exchange (client_id * 2 ^ 16 + 1) (encoded (blob v ∷ map blob vs)))
          (program ∷ (server ∷ arguments xs))
        ≡ done x)
      × IsPrinted (joined v vs) x
unfolding main
main-IsPrinted malloc address o prefix program server slot client_id xs v vs c fds found h
      some_params few fits base path opened hc small few_blobs inside room =
    let (ys, m, parsed, are, l) = param_parser-arguments malloc xs program server found h few in
    let s : Statics = record {
      name = some server;
      in_params = ys;
      num_in_params = length xs;
      mallocs = m;
    } in
    let ready =
      subst (IsOpening o.event 0) opened (open_server-IsReady o prefix server false 0 path) in
    let run =
      run_loop-IsPrinted address client_id slot v vs small few_blobs inside room hc s xs c
        (arguments-AllItems xs h) are refl fits ready.0 ready.1 in
    Returns-done (IsPrinted (joined v vs)) _ (
      rw (parsed, ne→== (length xs) 0 (omega arith))
        (subst (Returns (IsPrinted (joined v vs)))
          (sym (
            connected address o prefix server (calm slot)
              (exchange (client_id * 2 ^ 16 + 1) (encoded (blob v ∷ map blob vs))) s c fds base
              opened))
          run))
