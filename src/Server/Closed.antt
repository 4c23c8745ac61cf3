-- ===== src/Server/Closed.antt =====
-- af_ipcs_close_client of pkg/src/af_ipc_server.c.
use af_ipc.Common.{
  ℕ, ◌≡◌, ◌≢◌, refl, ap, ◌∙◌, Bool, true, false, some, List, [], ◌∷◌, ◌++◌, arith, if◌then◌else◌,
  inl, inr, Bool-cases, ◌==◌, ==→eq, ℤ, map,
}
use af_ipc.Ipc.Requests.{shutdown_requests}
use af_ipc.Server.{
  Client, Server, Effect, sent, shut_read, free_event, free_timer, close_socket, call_accept,
  call_close, call_receive, is_used, find_client_by_cid, remove_client, close_client, close_effects,
  close_client_by_cid, status_ok,
}
use af_ipc.Server.Valid.{IsServer, is_used-removed, find-remove_other, close_client-IsServer}

-- The calls of the close callback, with the status, the ID and the context.
abbrev pub close_calls : List Effect → List (ℤ × ℕ × ℕ)
close_calls [] = []
close_calls (call_close status cid context ∷ es) = (status, cid, context) ∷ close_calls es
close_calls (e ∷ es) = close_calls es

close_calls-append :
    (es fs : List Effect) → close_calls (es ++ fs) ≡ close_calls es ++ close_calls fs
close_calls-append [] fs = refl
close_calls-append (sent fd m ∷ es) fs = close_calls-append es fs
close_calls-append (shut_read fd ∷ es) fs = close_calls-append es fs
close_calls-append (free_event fd ∷ es) fs = close_calls-append es fs
close_calls-append (free_timer n ∷ es) fs = close_calls-append es fs
close_calls-append (close_socket fd ∷ es) fs = close_calls-append es fs
close_calls-append (call_accept cid ∷ es) fs = close_calls-append es fs
close_calls-append (call_receive cid d ∷ es) fs = close_calls-append es fs
close_calls-append (call_close status cid context ∷ es) fs =
    ap (◌∷◌ (status, cid, context)) (close_calls-append es fs)

close_calls-timers :
    (ns : List ℕ) (es : List Effect) → close_calls (map free_timer ns ++ es) ≡ close_calls es
close_calls-timers [] es = refl
close_calls-timers (n ∷ ns) es = close_calls-timers ns es

close_calls-event :
    (b : Bool) (fd : ℤ) (es : List Effect)
    → close_calls ((if b then free_event fd ∷ [] else []) ++ es) ≡ close_calls es
close_calls-event true fd es = refl
close_calls-event false fd es = refl

close_effects-calls :
    (c : Client) (s : Server)
    → s.close_callback ≡ true
    → close_calls (close_effects status_ok c s) ≡ (status_ok, c.cid, c.context) ∷ []
unfolding close_effects
close_effects-calls c s h =
    close_calls-event c.recv_event c.client_fd _
    ∙ close_calls-timers (shutdown_requests c.req_control).1 _
    ∙ rw h refl

pub found-cid :
    (cid : ℕ) (cs : List Client) (c : Client) → find_client_by_cid cid cs ≡ some c → c.cid ≡ cid
unfolding find_client_by_cid
found-cid cid [] c h = cc
found-cid cid (x ∷ cs) c h = elim (Bool-cases (x.cid == cid)) [
  | inl hit ↦ ground (arith, ==→eq x.cid cid hit)
  | inr miss ↦ found-cid cid cs c (ground arith)
]

-- For a server with a close callback whose clients satisfy the invariant, closing a client that
-- the application names succeeds and calls that callback exactly once, with status 0 and the ID
-- and context of the client; afterwards no client has the ID, every other client is still found,
-- and the invariant holds.
pub close_client_by_cid-once :
    (s : Server) (cid other : ℕ) (c : Client)
    → IsServer s
    → s.close_callback ≡ true
    → find_client_by_cid cid s.clients ≡ some c
    → cid ≢ other
    → let r = close_client_by_cid cid s in
      (r.0 ≡ true)
      × (close_calls r.2 ≡ (status_ok, cid, c.context) ∷ [])
      × (is_used cid r.1.clients ≡ false)
      × (find_client_by_cid other r.1.clients ≡ find_client_by_cid other s.clients)
      × IsServer r.1
unfolding close_client_by_cid close_client
close_client_by_cid-once s cid other c h has_callback found ne =
    let e = found-cid cid s.clients c found in
    rw (close_client_by_cid, found)
      (
        refl,
        close_effects-calls c s has_callback ∙ ap (λ i. (status_ok, i, c.context) ∷ []) e,
        ap (λ i. is_used cid (remove_client i s.clients)) e
            ∙ is_used-removed cid s.clients h.all_clients,
        find-remove_other c.cid other s.clients (omega arith),
        close_client-IsServer status_ok c s h,
      )
