-- ===== src/Ipc/Table/Refine.antt =====
-- The database of requests of pkg/src/af_ipc_common.c implements the table.
use af_ipc.Common.{
  ℕ, ◌+◌, ◌≤◌, ◌<◌, ◌≡◌, ◌≢◌, refl, ap, ap₂, subst, sym, ◌∙◌, arith, true, false, Option, none,
  some, List, [], ◌∷◌, ◌==◌, eq→==, ==→eq, ==→ne, ne→==, inl, inr, Bool-cases, Option-cases,
}
use mathlib.Core.Option
use af_ipc.Rpc.Memory.{Bytes}
use af_ipc.Ipc.Requests.{
  Request, ReqControl, find_pending, remove_pending, remove_request, on_timeout,
  find_unused_request, gen_seq_id, next_seq_id, init_requests,
}
use af_ipc.Ipc.Requests.Ids.{next_seq_id_lem}
use af_ipc.Ipc.Requests.Pending.{
  AreDistinct, find-remove_ne, find-remove_self, find-remove_none, remove-AreDistinct,
  remove_missing, find_pending-seq_num,
}
use af_ipc.Ipc.Send.{register, start_timer, new_request}
use af_ipc.Ipc.Send.Effect.{with_request}
use af_ipc.Ipc.Receive.{take_reply, answer}
use af_ipc.Ipc.Table.{
  Call, ask, arrive, expire, numbered, called, timed_out, take_call, take_calls, Entry, Table,
  empty, put_entry, without, replies, timeout_call, table_call, table_calls, requests,
}

abbrev entry : Request → Entry
entry r = (r.callback, r.context)

-- The table that a database stands for.
record Implements (rc : ReqControl) (t : Table) : Type 0 where
  counted : rc.last_seq_id ≡ t.count
  known : (id : ℕ) → Option.map entry (find_pending id rc.pending) ≡ t.entries id
  fresh : (id : ℕ) → rc.last_seq_id < id → find_pending id rc.pending ≡ none
  distinct : AreDistinct rc.pending

find_hit :
    (r : Request) (rs : List Request) (id : ℕ)
    → (r.seq_num == id) ≡ true
    → find_pending id (r ∷ rs) ≡ some r
unfolding find_pending
find_hit r rs id h = rw h refl

find_miss :
    (r : Request) (rs : List Request) (id : ℕ)
    → (r.seq_num == id) ≡ false
    → find_pending id (r ∷ rs) ≡ find_pending id rs
unfolding find_pending
find_miss r rs id h = rw h refl

put_entry_hit :
    (id k : ℕ) (e : Option Entry) (f : ℕ → Option Entry) → k ≡ id → put_entry id e f k ≡ e
put_entry_hit id k e f h = rw (eq→== k id h) refl

put_entry_miss :
    (id k : ℕ) (e : Option Entry) (f : ℕ → Option Entry) → k ≢ id → put_entry id e f k ≡ f k
put_entry_miss id k e f h = rw (ne→== k id h) refl

-- The entry of a new request in front.
known_ask :
    (r : Request) (rs : List Request) (n id : ℕ) (f : ℕ → Option Entry)
    → r.seq_num ≡ n
    → ((k : ℕ) → Option.map entry (find_pending k rs) ≡ f k)
    → Option.map entry (find_pending id (r ∷ rs)) ≡ put_entry n (some (entry r)) f id
known_ask r rs n id f e h = elim (Bool-cases (r.seq_num == id)) [
  | inl hit ↦
      ap (Option.map entry) (find_hit r rs id hit)
      ∙ sym (put_entry_hit n id (some (entry r)) f (omega (arith, ==→eq r.seq_num id hit)))
  | inr miss ↦
      ap (Option.map entry) (find_miss r rs id miss)
      ∙ h id
      ∙ sym (put_entry_miss n id (some (entry r)) f λ same. ==→ne r.seq_num id miss (omega arith))
]

ask-Implements :
    (rc : ReqControl) (t : Table) (callback : Option ℕ) (context timeout : ℕ)
    → Implements rc t
    → t.count < 32767
    → Implements
        (with_request rc callback context timeout)
        (table_call (ask callback context timeout) t).1
ask-Implements rc t callback context timeout h room =
    let e : next_seq_id rc.last_seq_id ≡ t.count + 1 =
      next_seq_id_lem rc.last_seq_id (omega (arith, h.counted)) ∙ omega (arith, h.counted) in
    record {
      counted = e;
      known = λ id.
          known_ask (new_request (next_seq_id rc.last_seq_id) timeout callback context) rc.pending
            (t.count + 1) id t.entries e h.known;
      fresh = λ id lt.
          find_miss (new_request (next_seq_id rc.last_seq_id) timeout callback context) rc.pending
            id (ne→== (next_seq_id rc.last_seq_id) id (omega arith))
          ∙ h.fresh id (omega (arith, h.counted));
      distinct = (h.fresh (next_seq_id rc.last_seq_id) (omega (arith, h.counted)), h.distinct);
    }

remove-Implements :
    (rc : ReqControl) (t : Table) (id : ℕ)
    → Implements rc t
    → Implements (remove_request rc id) (without id t)
unfolding remove_request
remove-Implements rc t id h = record {
  counted = h.counted;
  known = λ k. elim (Bool-cases (k == id)) [
    | inl same ↦
        ap (Option.map entry) (
          ap (λ n. find_pending n (remove_pending id rc.pending)) (==→eq k id same)
          ∙ find-remove_self id rc.pending h.distinct)
        ∙ sym (put_entry_hit id k none t.entries (==→eq k id same))
    | inr differs ↦
        ap (Option.map entry) (find-remove_ne id k rc.pending λ e. ==→ne k id differs (sym e))
        ∙ h.known k
        ∙ sym (put_entry_miss id k none t.entries (==→ne k id differs))
  ];
  fresh = λ k lt. find-remove_none id k rc.pending (h.fresh k lt);
  distinct = remove-AreDistinct id rc.pending h.distinct;
}

-- A request that is not pending.
missing-Implements :
    (rc : ReqControl) (t : Table) (id : ℕ)
    → Implements rc t
    → find_pending id rc.pending ≡ none
    → Implements rc (without id t)
unfolding remove_request
missing-Implements rc t id h missing =
    subst (λ rs. Implements (record rc { pending = rs }) (without id t))
      (remove_missing id rc.pending missing) (remove-Implements rc t id h)

-- A reply and a timeout, by what is pending.
module _ (slot : Request) (rc : ReqControl) (t : Table) (id : ℕ) (h : Implements rc t) where
  arrive-Implements :
      (payload : Bytes)
      → ((take_call slot (arrive id payload) rc).0 ≡ called (replies id payload (t.entries id)))
        × Implements (take_call slot (arrive id payload) rc).1 (without id t)
  unfolding take_call take_reply answer
  arrive-Implements payload = elim (Option-cases (find_pending id rc.pending)) [
    | inl missing ↦
        rw (take_reply, missing, sym (h.known id) ∙ ap (Option.map entry) missing)
          (refl, missing-Implements rc t id h missing)
    | inr (r, found) ↦
        let e = sym (h.known id) ∙ ap (Option.map entry) found in
        elim (Option-cases r.callback) [
          | inl silent ↦ rw (take_reply, found, e, silent) (refl, remove-Implements rc t id h)
          | inr (c, calls) ↦ rw (take_reply, found, e, calls) (refl, remove-Implements rc t id h)
        ]
  ]

  expire-Implements :
      ((take_call slot (expire id) rc).0 ≡ timed_out (timeout_call (t.entries id)))
      × Implements (take_call slot (expire id) rc).1 (without id t)
  unfolding take_call on_timeout
  expire-Implements = elim (Option-cases (find_pending id rc.pending)) [
    | inl missing ↦
        rw (missing, sym (h.known id) ∙ ap (Option.map entry) missing)
          (refl, missing-Implements rc t id h missing)
    | inr (r, found) ↦
        let e = sym (h.known id) ∙ ap (Option.map entry) found in
        let n = find_pending-seq_num id rc.pending r found in
        elim (Option-cases r.callback) [
          | inl silent ↦ rw (found, e, silent, n) (refl, remove-Implements rc t id h)
          | inr (c, calls) ↦ rw (found, e, calls, n) (refl, remove-Implements rc t id h)
        ]
  ]

ask-Answer :
    (slot : Request) (callback : Option ℕ) (context timeout : ℕ) (rc : ReqControl)
    → take_call slot (ask callback context timeout) rc
      ≡ (numbered (next_seq_id rc.last_seq_id), with_request rc callback context timeout)
unfolding take_call register find_unused_request gen_seq_id start_timer
ask-Answer slot callback context timeout rc = refl

call-Implements :
    (slot : Request) (c : Call) (rc : ReqControl) (t : Table)
    → Implements rc t
    → t.count + requests (c ∷ []) ≤ 32767
    → ((take_call slot c rc).0 ≡ (table_call c t).0)
      × Implements (take_call slot c rc).1 (table_call c t).1
call-Implements slot (ask callback context timeout) rc t h room =
    rw (ask-Answer slot callback context timeout rc) (
      ap numbered
          (next_seq_id_lem rc.last_seq_id (omega (arith, h.counted)) ∙ omega (arith, h.counted)),
      ask-Implements rc t callback context timeout h (omega arith),
    )
call-Implements slot (arrive id payload) rc t h room = arrive-Implements slot rc t id h payload
call-Implements slot (expire id) rc t h room = expire-Implements slot rc t id h

count_call :
    (c : Call) (cs : List Call) (t : Table)
    → t.count + requests (c ∷ cs) ≡ (table_call c t).1.count + requests cs
count_call (ask callback context timeout) cs t = omega arith
count_call (arrive id payload) cs t = refl
count_call (expire id) cs t = refl

one_call : (c : Call) (cs : List Call) → requests (c ∷ []) ≤ requests (c ∷ cs)
one_call (ask callback context timeout) cs = omega arith
one_call (arrive id payload) cs = omega arith
one_call (expire id) cs = omega arith

calls-Implements :
    (slot : Request) (cs : List Call) (rc : ReqControl) (t : Table)
    → Implements rc t
    → t.count + requests cs ≤ 32767
    → take_calls slot cs rc ≡ table_calls cs t
unfolding take_calls
calls-Implements slot [] rc t h room = refl
calls-Implements slot (c ∷ cs) rc t h room =
    let (e, h') = call-Implements slot c rc t h (omega (arith, one_call c cs)) in
    ap₂ ◌∷◌ e (
      calls-Implements slot cs (take_call slot c rc).1 (table_call c t).1 h'
        (omega (arith, count_call c cs t)))

-- From its initialisation on, and while at most 32767 requests are made in all, the database answers
-- every sequence of requests, replies and timeouts as a table does in which the requests are numbered
-- from 1 on: a reply or a timeout calls the callback of the request with its ID, with its context, if
-- that is still waiting, and takes it off; otherwise it calls nothing. The pool gives memory, and
-- timers can be made.
pub take_calls-table_calls :
    (old : ReqControl) (slot : Request) (cs : List Call) (rc : ReqControl)
    → init_requests true 0 (some old) ≡ (none, 0, some rc)
    → requests cs ≤ 32767
    → take_calls slot cs rc ≡ table_calls cs empty
unfolding init_requests find_pending
take_calls-table_calls old slot cs rc h few =
    subst (λ x. take_calls slot cs x ≡ table_calls cs empty) (initial _ rc (ap (λ r. r.2) h))
      (calls-Implements slot cs _ empty
        (record { counted = refl; known = λ id. refl; fresh = λ id lt. refl; distinct = tt })
        (omega arith))
  where
    initial : (x y : ReqControl) → some x ≡ some y → x ≡ y
    initial x y e = cc
