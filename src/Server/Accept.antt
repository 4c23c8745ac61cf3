-- ===== src/Server/Accept.antt =====
-- add_client of pkg/src/af_ipc_server.c.
use af_ipc.Common.{ℕ, ◌^◌, ◌<◌, ◌≡◌, Bool, true, false, Option, none, some, List, [], ◌∷◌, ℤ}
use af_ipc.Ipc.Requests.{Errno, ReqControl, init_requests}
use af_ipc.Server.{
  Client, Server, Effect, Resources, is_used, enter, set_up, accepted, set_head, add_client,
  alloc_and_init_client, get_next_cid, cleared,
}
use af_ipc.Server.Ids.{IsFreshIfAny, get_next_cid-IsFreshIfAny}
use af_ipc.Server.Valid.{AreClients, IsServer}

-- What alloc_and_init_client leaves if it returns.
abbrev IsAllocated : Option (Option Client × Server) → Type 0
IsAllocated none = Unit {0}
IsAllocated (some (c, s)) = IsServer s

abbrev pub IsAdded : Option (Option Client × Server × List Effect) → Type 0
IsAdded none = Unit {0}
IsAdded (some (c, s, es)) = IsServer s

enter-IsServer :
    (r : Option Errno × ℕ × Option ReqControl) (cid : ℕ) (s : Server)
    → IsServer s
    → 0 < cid
    → cid < 2 ^ 16
    → is_used cid s.clients ≡ false
    → IsServer (enter r cid s).1
unfolding enter
enter-IsServer (none, mutex, some rc) cid s h p w u = record {
  last_word = w;
  all_clients = (p, w, u, h.all_clients);
}
enter-IsServer (none, mutex, none) cid s h p w u = record {
  last_word = w;
  all_clients = h.all_clients;
}
enter-IsServer (some e, mutex, rc) cid s h p w u = record {
  last_word = w;
  all_clients = h.all_clients;
}

with_id :
    (res : Resources) (o : Option ℕ) (s : Server)
    → IsServer s
    → IsFreshIfAny s.clients o
    → IsAllocated (elim o [
      | none ↦ none
      | some cid ↦ some (enter (init_requests res.pool res.mutex (some cleared)) cid s)
    ])
with_id res none s h f = tt
with_id res (some cid) s h f = enter-IsServer _ cid s h f.0 f.1 f.2

alloc-IsAllocated :
    (alloc pool : Bool) (mutex : ℕ) (event : Bool) (s : Server)
    → IsServer s
    → IsAllocated (
        alloc_and_init_client
          (record { alloc = alloc; pool = pool; mutex = mutex; event = event })
          s)
unfolding alloc_and_init_client
alloc-IsAllocated true pool mutex event s h =
    with_id (record { alloc = true; pool = pool; mutex = mutex; event = event }) (get_next_cid s) s
      h (get_next_cid-IsFreshIfAny s h.last_word)
alloc-IsAllocated false pool mutex event s h = h

set_head-AreClients :
    (context : ℕ → ℕ) (fd : ℤ) (s : Server) (cs : List Client)
    → AreClients cs
    → AreClients (set_head (accepted context fd s) cs)
set_head-AreClients context fd s [] h = tt
set_head-AreClients context fd s (c ∷ cs) h = h

-- From the new client on.
with_client :
    (event : Bool) (context : ℕ → ℕ) (fd : ℤ) (s : Server) (o : Option (Option Client × Server))
    → IsAllocated o
    → IsAdded (set_up event context fd s o)
unfolding set_up
with_client event context fd s none h = tt
with_client event context fd s (some (none, s')) h = h
with_client true context fd s (some (some c, s')) h = record {
  last_word = h.last_word;
  all_clients = set_head-AreClients context fd s s'.clients h.all_clients;
}
with_client false context fd s (some (some c, s')) h = tt

pub add_client-IsAdded :
    (res : Resources) (context : ℕ → ℕ) (fd : ℤ) (s : Server)
    → IsServer s
    → IsAdded (add_client res context fd s)
unfolding add_client
add_client-IsAdded res context fd s h =
    with_client res.event context fd s (alloc_and_init_client res s)
      (alloc-IsAllocated res.alloc res.pool res.mutex res.event s h)
