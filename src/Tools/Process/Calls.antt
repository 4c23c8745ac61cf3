-- ===== src/Tools/Process/Calls.antt =====
-- The calls that a receive event of pkg/src/af_ipc_client.c makes in the tools pkg/src/ipc_send.c and
-- pkg/src/ipc_wait.c, whose callbacks do nothing with the connection.
use af_ipc.Common.{
  ℕ, ◌≤◌, ◌≡◌, refl, false, List, [], ◌∷◌, ◌++◌, arith, ℤ, map, Returns, >>=-Returns, length,
  if_both,
}
use af_ipc.Ipc.Requests.{ReqControl, shutdown_requests}
use af_ipc.Ipc.Send.{Environment}
use af_ipc.Ipc.Receive.{Delivery, incoming, reply}
use af_ipc.Ipc.Receive.Deliveries.{total_size}
use af_ipc.Ipc.Receive.Total.{handle_receive-total}
use af_ipc.Client.{
  Connection, live, Effect, sent, free_event, free_timer, shut_both, close_socket, call_close,
  call_receive, Left, status_error, close_and_free_server, event_effects, socket_effects,
  has_socket,
}
use af_ipc.Client.Receive.{
  Arrival, packet, end_of_stream, try_again, failed, on_recv, after_packet, then_more,
}
use af_ipc.Client.Receive.Quiet.{take_packet-quiet}
use af_ipc.Ipc.Receive.Replies.{quiet}
use af_ipc.Client.Closing.{close_calls, receives-quiet}
use af_ipc.Client.Life.{IsIdle, IsOrderly, closed-IsOrderly, more-IsOrderly}
use af_ipc.Tools.Process.{payload, all_passive}

-- The messages fit in outBuffer.
abbrev pub AllFit : List Effect → Type 0
AllFit [] = Unit {0}
AllFit (call_receive d ∷ es) = (length (payload d) ≤ 256) × AllFit es
AllFit (e ∷ es) = AllFit es

pub AllFit-append : (es fs : List Effect) → AllFit es → AllFit fs → AllFit (es ++ fs)
AllFit-append [] fs h k = k
AllFit-append (call_receive d ∷ es) fs h k = (h.0, AllFit-append es fs h.1 k)
AllFit-append (call_close status context ∷ es) fs h k = AllFit-append es fs h k
AllFit-append (sent m ∷ es) fs h k = AllFit-append es fs h k
AllFit-append (free_event ∷ es) fs h k = AllFit-append es fs h k
AllFit-append (free_timer n ∷ es) fs h k = AllFit-append es fs h k
AllFit-append (shut_both fd ∷ es) fs h k = AllFit-append es fs h k
AllFit-append (close_socket fd ∷ es) fs h k = AllFit-append es fs h k

timers-AllFit : (ns : List ℕ) → AllFit (map free_timer ns)
timers-AllFit [] = tt
timers-AllFit (n ∷ ns) = timers-AllFit ns

pub closed-AllFit : (status : ℤ) (c : Connection) → AllFit (close_and_free_server status c).1
unfolding close_and_free_server socket_effects
closed-AllFit status c = AllFit-append (event_effects c) _ (if_both AllFit c.event _ _ tt tt) (
    AllFit-append (socket_effects c) _
      (if_both AllFit (has_socket c.fd) _ _
        (AllFit-append (map free_timer (shutdown_requests c.req_control).1) _
          (timers-AllFit (shutdown_requests c.req_control).1) tt)
        tt)
      (if_both AllFit c.close_callback _ _ tt tt))

-- What was received in at most 264 bytes.
deliveries-AllFit : (ds : List Delivery) → total_size ds ≤ 264 → AllFit (map call_receive ds)
deliveries-AllFit [] h = tt
deliveries-AllFit (incoming n buf ∷ ds) h = (omega arith, deliveries-AllFit ds (omega arith))
deliveries-AllFit (reply c k n buf ∷ ds) h = (omega arith, deliveries-AllFit ds (omega arith))

-- Packets of at most 264 bytes.
abbrev pub AllShort : List Arrival → Type 0
AllShort [] = Unit {0}
AllShort (packet buf acts ∷ arrivals) = (length buf ≤ 264) × AllShort arrivals
AllShort (a ∷ arrivals) = AllShort arrivals

-- What a receive event leaves.
abbrev pub IsLeft : ℕ → Left → Type 0
IsLeft context q = IsOrderly context q × AllFit q.1

more-IsLeft :
    (context : ℕ) (es : List Effect) (q : Left)
    → AllFit es
    → close_calls es ≡ []
    → IsLeft context q
    → IsLeft context (then_more es q)
more-IsLeft context es q h k l = (more-IsOrderly context es q k l.0, AllFit-append es q.1 h l.1)

-- The state after a packet.
IsIdle-after :
    (context : ℕ) (c : Connection) (rc : ReqControl)
    → IsIdle context c
    → IsIdle context (record c { in_receive = false; marked = false; req_control = rc })
IsIdle-after context c rc h = record {
  opened = record {
    has_callback = h.opened.has_callback;
    same_context = h.opened.same_context;
    valid = h.opened.valid;
  };
  not_in_receive = refl;
  not_marked = refl;
}

pub recv-IsLeft :
    (context : ℕ) (env : Environment) (arrivals : List Arrival) (c : Connection)
    → AllShort arrivals
    → IsIdle context c
    → Returns (IsLeft context) (on_recv env (all_passive arrivals) (live c))
unfolding on_recv after_packet
recv-IsLeft context env [] c short h = ((h, refl), tt)
recv-IsLeft context env (packet buf acts ∷ arrivals) c short h =
    let (res, e, delivered, within) =
      handle_receive-total quiet c.receive_callback 0 buf c.req_control (omega arith) in
    let es = map call_receive res.0 in
    let fit = deliveries-AllFit res.0 (omega (arith, within, short.0)) in
    let c' : Connection = record c { in_receive = false; marked = false; req_control = res.1 } in
    rw (take_packet-quiet env buf c res.0 res.1 e, h.not_marked)
      (>>=-Returns (IsLeft context) (IsLeft context) (on_recv env (all_passive arrivals) (live c'))
        _ (recv-IsLeft context env arrivals c' short.1 (IsIdle-after context c res.1 h))
        λ q l. more-IsLeft context es q fit (receives-quiet res.0) l)
recv-IsLeft context env (end_of_stream ∷ arrivals) c short h =
    (closed-IsOrderly context status_error c h.opened, closed-AllFit status_error c)
recv-IsLeft context env (failed e ∷ arrivals) c short h =
    (closed-IsOrderly context status_error c h.opened, closed-AllFit status_error c)
recv-IsLeft context env (try_again ∷ arrivals) c short h = ((h, refl), tt)
