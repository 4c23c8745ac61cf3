-- ===== src/Server/Listen/Tests.antt =====
-- The theorems on opening, accepting and closing of pkg/src/af_ipc_server.c, in concrete states.
use af_ipc.Common.{◌≡◌, refl, arith, true, false, List, [], ◌∷◌, ◌++◌, some, pos, done, Returns}
use af_ipc.Rpc.Memory.{Bytes}
use af_ipc.Server.{Client, Server, Effect, Resources, cleared}
use af_ipc.Server.Steps.{opened}
use af_ipc.Server.Valid.{IsServer}
use af_ipc.Server.Listen.{
  Use, take_memory, take_pool, take_socket, take_mutex, take_event, bind_to, start_listening,
  Listener, listening, Opening, open_server, close_server, on_accept,
}
use af_ipc.Server.Listen.Balance.{nothing, only_mutex, held, IsBalanced, open_server-IsBalanced}
use af_ipc.Server.Listen.Clients.{client_sockets, close_calls, close_server-opened}
use af_ipc.Server.Listen.Accepting.{IsKept, on_accept-IsKept}

abbrev path : Bytes
path = 47 ∷ 115 ∷ []

-- The event cannot be added.
abbrev failing : Opening
failing = record {
  base = true;
  memory = true;
  pool = true;
  socket = pos 4;
  reuse = true;
  bind = λ address. true;
  listen = true;
  mutex = 0;
  event = true;
  schedule = false;
}

open_server-IsBalanced_example :
    Returns
      (IsBalanced failing (opened true true true))
      (open_server failing path path true true true)
open_server-IsBalanced_example =
    open_server-IsBalanced failing path path true true true (omega arith)

abbrev client : Client
client = record {
  client_fd = pos 5;
  cid = 1;
  recv_event = true;
  req_control = cleared;
  context = 70;
}

abbrev crowded : Server
crowded = record (opened true true true) { clients = client ∷ [] }

abbrev working : Opening
working = record failing { schedule = true }

abbrev listener : Listener
listener = record (listening (pos 4) true) { server = opened true true true }

abbrev all_uses : List Use
all_uses = take_memory ∷ take_pool ∷ take_socket (pos 4) ∷ take_mutex ∷ take_event ∷ []

listener_opened : open_server working path path true true true ≡ done (some listener, all_uses)
unfolding open_server bind_to start_listening
listener_opened = refl

close_server-opened_example :
    let closed = close_server (record listener { server = crowded }) in
    (held (all_uses ++ closed) nothing ≡ only_mutex)
    × (client_sockets closed ≡ [])
    × (close_calls closed ≡ [])
close_server-opened_example =
    close_server-opened working path path true true true listener all_uses crowded (omega arith)
      refl listener_opened

abbrev resources : Resources
resources = record { alloc = true; pool = true; mutex = 0; event = true }

opened-IsServer : IsServer (opened true true true)
opened-IsServer = record { last_word = omega arith; all_clients = tt }

on_accept-IsKept_example :
    (s' : Server) × (es : List Effect) × (on_accept resources
        (λ cid. cid)
        true
        (pos 5)
        (opened true true true)
      ≡ some (s', es))
    × IsServer s'
    × IsKept true (pos 5) (opened true true true) s' es
on_accept-IsKept_example =
    on_accept-IsKept resources (λ cid. cid) true (pos 5) (opened true true true) refl (omega arith)
      opened-IsServer
