-- ===== src/Server/Steps.antt =====
-- The life of a server of pkg/src/af_ipc_server.c as a relation of steps: what the event loop and the
-- application can do with it.
use af_ipc.Common.{ℕ, ◌≡◌, subst, Bool, Option, some, List, [], arith, ℤ, done}
use af_ipc.Rpc.Memory.{Bytes}
use af_ipc.Server.{Client, Server, Effect, Resources, add_client, close_client_by_cid}
use af_ipc.Server.Send.{Network, send_response, send_unsolicited, send_request}
use af_ipc.Server.Receive.{Arrival, on_recv}
use af_ipc.Server.Receive.Kept.{Leaves, on_recv-IsServer}
use af_ipc.Server.Accept.{IsAdded, add_client-IsAdded}
use af_ipc.Server.Valid.{
  IsServer, send_response-IsServer, send_unsolicited-IsServer, send_request-IsServer,
  close_client_by_cid-IsServer,
}

-- What af_ipcs_open leaves.
abbrev pub opened : Bool → Bool → Bool → Server
opened accept receive close = record {
  clients = [];
  last_cid = 0;
  accept_callback = accept;
  receive_callback = receive;
  close_callback = close;
}

pub data Step : Server → Server → Type 0 where
  accept :
      (res : Resources) (context : ℕ → ℕ) (fd : ℤ) (s s' : Server) (c : Option Client)
      (es : List Effect)
      → add_client res context fd s ≡ some (c, s', es)
      → Step s s'
  receive :
      (net : Network) (arrivals : List Arrival) (cid : ℕ) (s s' : Server) (es : List Effect)
      → on_recv net arrivals cid s ≡ done (s', es)
      → Step s s'
  respond :
      (net : Network) (n : ℕ) (buf : Bytes) (size : ℤ) (s : Server)
      → Step s (send_response net s n buf size).1
  notify :
      (net : Network) (cid : ℕ) (buf : Bytes) (size : ℤ) (s : Server)
      → Step s (send_unsolicited net s cid buf size).1
  request :
      (net : Network) (cid : ℕ) (buf : Bytes) (size : ℤ) (callback : Option ℕ) (context : ℕ)
      (timeout : ℤ) (s : Server)
      → Step s (send_request net s cid buf size callback context timeout).1
  close : (cid : ℕ) (s : Server) → Step s (close_client_by_cid cid s).1

-- The states that a server comes to.
pub data Reachable (start : Server) : Server → Type 0 where
  here : Reachable start start
  step : (s s' : Server) → Reachable start s → Step s s' → Reachable start s'

Step-IsServer : (s s' : Server) → Step s s' → IsServer s → IsServer s'
Step-IsServer _ _ (accept res context fd s s' c es e) h =
    subst IsAdded e (add_client-IsAdded res context fd s h)
Step-IsServer _ _ (receive net arrivals cid s s' es e) h =
    subst (Leaves IsServer (Unit {0})) e (on_recv-IsServer net arrivals cid s h)
Step-IsServer _ _ (respond net n buf size s) h = send_response-IsServer net s n buf size h
Step-IsServer _ _ (notify net cid buf size s) h = send_unsolicited-IsServer net s cid buf size h
Step-IsServer _ _ (request net cid buf size callback context timeout s) h =
    send_request-IsServer net s cid buf size callback context timeout h
Step-IsServer _ _ (close cid s) h = close_client_by_cid-IsServer cid s h

-- In every state that an opened server comes to, by whatever sequence of new connections, messages
-- from clients, responses, notifications, requests and closed clients, the IDs of its clients are
-- nonzero 16-bit numbers that differ from each other.
pub Reachable-IsServer : (a r c : Bool) (s : Server) → Reachable (opened a r c) s → IsServer s
Reachable-IsServer a r c _ here = record { last_word = omega arith; all_clients = tt }
Reachable-IsServer a r c _ (step before s reached st) =
    Step-IsServer before s st (Reachable-IsServer a r c before reached)
