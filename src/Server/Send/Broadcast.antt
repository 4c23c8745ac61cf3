-- ===== src/Server/Send/Broadcast.antt =====
-- The broadcast of pkg/src/af_ipc_server.c.
use af_ipc.Common.{
  ◌≡◌, refl, ap, ap₂, ◌∙◌, false, none, some, List, [], ◌∷◌, ◌++◌, ℤ, pos, if◌then◌else◌,
}
use af_ipc.Rpc.Memory.{Bytes}
use af_ipc.Ipc.Requests.{einval}
use af_ipc.Ipc.Send.{
  Message, SendResult, send_error, sent_bytes, make_message, too_long, send, send_in_time, transmit,
}
use af_ipc.Server.{Client, Server, Effect, sent}
use af_ipc.Server.Send.{Network, sent_to, broadcast, send_unsolicited}

-- One client's share: the message if its socket takes it.
abbrev pub share : ℤ → Message → SendResult → List Effect
share fd m (sent_bytes n) = sent fd m ∷ []
share fd m (send_error e) = []

abbrev pub shares : Network → Message → List Client → List Effect
shares net m [] = []
shares net m (c ∷ cs) = share c.client_fd m ((net c.client_fd).sendmsg m) ++ shares net m cs

transmit-share :
    (fd : ℤ) (m : Message) (answer : SendResult)
    → sent_to fd (transmit answer none none m).sent ≡ share fd m answer
unfolding sent_to transmit
transmit-share fd m (sent_bytes n) = refl
transmit-share fd m (send_error e) = refl

send-share :
    (net : Network) (buf : Bytes) (size fd : ℤ)
    → too_long size ≡ false
    → sent_to fd (send (net fd) none 0 buf size none 0 (pos 0)).sent
      ≡ share fd (make_message 0 buf size) ((net fd).sendmsg (make_message 0 buf size))
unfolding send send_in_time
send-share net buf size fd h =
    let m = make_message 0 buf size in
    ap
      (λ b.
        sent_to fd
          (if b
            then record { error = some einval; control = none; sent = none; taken = 0 }
            else transmit ((net fd).sendmsg m) none none m).sent)
      h
    ∙ transmit-share fd m ((net fd).sendmsg m)

broadcast-shares :
    (net : Network) (buf : Bytes) (size : ℤ) (cs : List Client)
    → too_long size ≡ false
    → broadcast net buf size cs ≡ shares net (make_message 0 buf size) cs
unfolding broadcast
broadcast-shares net buf size [] h = refl
broadcast-shares net buf size (c ∷ cs) h =
    ap₂ (λ es fs. es ++ fs) (send-share net buf size c.client_fd h)
      (broadcast-shares net buf size cs h)

-- A broadcast of a message that is not too long goes to every client, in the order of the list, but
-- for those whose socket refuses it: they are passed over, keep their place, and do not keep it from
-- those behind them. It returns 0 and changes nothing in the server.
pub broadcast-all :
    (net : Network) (s : Server) (buf : Bytes) (size : ℤ)
    → too_long size ≡ false
    → send_unsolicited net s 0 buf size ≡ (none, s, shares net (make_message 0 buf size) s.clients)
unfolding send_unsolicited
broadcast-all net s buf size h =
    ap (λ es. (none, s, es)) (broadcast-shares net buf size s.clients h)
