-- ===== src/Client/Receive/Quiet.antt =====
-- The receive event of pkg/src/af_ipc_client.c with callbacks that do nothing with the connection: its
-- loop is that of pkg/src/af_ipc_common.c.
use af_ipc.Common.{
  ℕ, zero, suc, ◌+◌, ◌-◌, ◌||◌, ◌≡◌, refl, ap, true, ◌∙◌, Option, none, some, List, [], ◌∷◌, ◌++◌,
  inl, inr, Bool-cases, ltb, leb, map, Run, done, ◌>>=◌, length, take, drop,
}
use mathlib.Core.Option
use af_ipc.Rpc.Memory.{Bytes}
use af_ipc.Ipc.SeqNum.{get_seq_id}
use af_ipc.Ipc.Requests.{ReqControl}
use af_ipc.Ipc.Send.{Environment}
use af_ipc.Ipc.Receive.{
  Delivery, header_seq_num, header_len, dispatch, after, receive_from, handle_receive_message,
}
use af_ipc.Ipc.Receive.Replies.{quiet}
use af_ipc.Client.{Connection, Handle, live, call_receive, Left}
use af_ipc.Client.Receive.{
  Action, act_all, call_one, call_all, take_message, receive_messages, returned, take_packet,
  then_more,
}

abbrev pub passive_acts : Delivery → List Action
passive_acts d = []

calls :
    (env : Environment) (ds : List Delivery) (h : Handle)
    → call_all env passive_acts ds h ≡ done (h, map call_receive ds)
unfolding call_all call_one act_all
calls env [] h = refl
calls env (d ∷ ds) h = rw (calls env ds h) refl

-- What the loop of af_ipc_common.c leaves of a connection.
abbrev left_of : Connection → List Delivery × ReqControl → Run Left
left_of c (ds, rc) = done (live (record c { req_control = rc }), map call_receive ds)

map_calls :
    (ds es : List Delivery)
    → map call_receive ds ++ map call_receive es ≡ map call_receive (ds ++ es)
map_calls [] es = refl
map_calls (d ∷ ds) es = ap (λ fs. call_receive d ∷ fs) (map_calls ds es)

join :
    (c : Connection) (rc : ReqControl) (ds : List Delivery)
    (o : Option (List Delivery × ReqControl))
    → Option.map
        (λ x. x >>= λ r. done (then_more (map call_receive ds) r))
        (Option.map (left_of (record c { req_control = rc })) o)
      ≡ Option.map (left_of c) (Option.map (after ds) o)
join c rc ds none = refl
join c rc ds (some (es, rc')) =
    ap (λ fs. some (done (live (record c { req_control = rc' }), fs))) (map_calls ds es)

loop :
    (fuel : ℕ) (env : Environment) (buf : Bytes) (p : ℕ) (c : Connection)
    → receive_messages fuel env passive_acts buf p c
      ≡ Option.map (left_of c) (receive_from fuel quiet c.receive_callback 0 buf p c.req_control)
unfolding receive_messages receive_from take_message
loop zero env buf p c = refl
loop (suc fuel) env buf p c = elim (Bool-cases (ltb p (length buf))) [
  | inr end ↦ rw end refl
  | inl more ↦ elim (Bool-cases (leb (length buf) (p + 8))) [
    | inl short ↦ rw (more, short) refl
    | inr room ↦
        elim (Bool-cases (ltb (length buf) (p + header_len buf p) || ltb (header_len buf p) 8)) [
          | inl bad ↦ rw (more, room, bad) refl
          | inr good ↦
              let m = header_len buf p in
              let r =
                dispatch quiet c.receive_callback 0 (get_seq_id (header_seq_num buf p))
                  (take (m - 8) (drop (p + 8) buf)) c.req_control in
              rw (more, room, good, calls env r.0 (live (record c { req_control = r.1 })))
                (ap (Option.map (λ x. x >>= λ q. done (then_more (map call_receive r.0) q)))
                    (loop fuel env buf (p + m) (record c { req_control = r.1 }))
                  ∙ join c r.1 r.0 (receive_from fuel quiet c.receive_callback 0 buf (p + m) r.1))
        ]
  ]
]

pub take_packet-quiet :
    (env : Environment) (buf : Bytes) (c : Connection) (ds : List Delivery) (rc : ReqControl)
    → handle_receive_message quiet c.receive_callback 0 buf c.req_control ≡ some (ds, rc)
    → take_packet env passive_acts buf c
      ≡ done (live (record c { in_receive = true; req_control = rc }), map call_receive ds)
unfolding take_packet handle_receive_message
take_packet-quiet env buf c ds rc h = ap returned (
    loop (length buf + 1) env buf 0 (record c { in_receive = true })
    ∙ ap (Option.map (left_of (record c { in_receive = true }))) h)
