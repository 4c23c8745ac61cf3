-- ===== src/Client/Open.antt =====
-- af_ipcc_open_server of pkg/src/af_ipc_client.c, and the prefix of the socket paths of
-- pkg/src/af_ipc_common.c. The system calls are answered by an `Opening`.
use af_ipc.Common.{
  ℕ, zero, suc, ◌+◌, ◌<◌, ◌≡◌, refl, Bool, true, false, Option, none, some, List, [], ◌∷◌, ◌++◌,
  arith, inl, inr, Bool-cases, leb, le→leb, if◌then◌else◌, ℤ, Run, fault, done, length,
  length-append, take,
}
use af_ipc.Rpc.Memory.{Bytes}
use af_ipc.Ipc.Requests.{Errno, ReqControl, init_requests}
use af_ipc.Client.{Connection, is_invalid}
use af_ipc.Client.Life.{IsIdle}

-- af_ipc_server_sock_path_prefix, and its change; the old one is what it was.
abbrev pub set_server_sock_path_prefix : Bytes → Bytes → Bytes
set_server_sock_path_prefix prefix old = prefix

-- Whether the event base and the memory are there, what socket returns, whether connect succeeds at an
-- address, whether the pool was created, the result of pthread_mutex_init, and whether event_new
-- succeeds.
pub record Opening : Type 0 where
  pub base : Bool
  pub memory : Bool
  pub socket : ℤ
  pub connect : Bytes → Bool
  pub pool : Bool
  pub mutex : ℕ
  pub event : Bool

-- The connection or NULL, and the sockets that were opened and are not closed.
abbrev pub Opened : Type 0
Opened = Option Connection × List ℤ

-- sizeof(server_path)
abbrev pub path_size : ℕ
path_size = 128

abbrev zero_control : ReqControl
zero_control = record { last_seq_id = 0; mutex_created = false; pending = []; pool = false }

-- The end of the function, with what af_ipc_util_init_requests left. event_add is called with the NULL
-- of an event_new that failed, which is a fault.
abbrev pub with_control :
    Bool → ℤ → Bool → ℕ → Bool → Option Errno × ℕ × Option ReqControl → Run Opened
with_control event fd receive context close (none, zero, some rc) =
    if event
    then done (
      some (record {
        fd = fd;
        in_receive = false;
        marked = false;
        receive_callback = receive;
        close_callback = close;
        context = context;
        event = true;
        req_control = rc;
      }),
      fd ∷ [],
    )
    else fault
with_control event fd receive context close r = done (none, [])

-- From the construction of the path on. sprintf into server_path, then at most 107 bytes of it in the
-- address.
unfoldable pub connect_to : Opening → Bytes → Bool → ℕ → Bool → Run Opened
unfolding init_requests
connect_to o path receive context close =
    if leb (length path + 1) path_size
    then (if o.connect (take 107 path)
        then with_control o.event o.socket receive context close
            (init_requests o.pool o.mutex (some zero_control))
        else done (none, []))
    else fault

unfoldable pub open_server : Opening → Bytes → Bytes → Bool → ℕ → Bool → Run Opened
unfolding connect_to
open_server o prefix name receive context close =
    if o.base
    then (if o.memory
        then (if is_invalid o.socket
            then done (none, [])
            else connect_to o (prefix ++ name) receive context close)
        else done (none, []))
    else done (none, [])

-- A connection that is ready for its events, with one socket, or nothing.
abbrev pub IsReady : ℕ → Opened → Type 0
IsReady context (some c, fds) =
    IsIdle context c × (c.req_control.last_seq_id ≡ 0) × (fds ≡ c.fd ∷ [])
IsReady context (none, fds) = fds ≡ []

-- The same of a run; only event_new can be the reason of a fault.
abbrev pub IsOpening : Bool → ℕ → Run Opened → Type 0
IsOpening event context fault = event ≡ false
IsOpening event context (done r) = IsReady context r

-- No request was made yet.
abbrev IsFresh : Option Errno × ℕ × Option ReqControl → Type 0
IsFresh (e, n, none) = Unit {0}
IsFresh (e, n, some rc) = rc.last_seq_id ≡ 0

init_requests-IsFresh :
    (pool : Bool) (mutex : ℕ) (old : ReqControl) → IsFresh (init_requests pool mutex (some old))
unfolding init_requests
init_requests-IsFresh true mutex old = refl
init_requests-IsFresh false mutex old = refl

with_control-IsReady :
    (event : Bool) (fd : ℤ) (receive : Bool) (context : ℕ)
    (r : Option Errno × ℕ × Option ReqControl)
    → is_invalid fd ≡ false
    → IsFresh r
    → IsOpening event context (with_control event fd receive context true r)
with_control-IsReady false fd receive context (none, zero, some rc) h fresh = refl
with_control-IsReady true fd receive context (none, zero, some rc) h fresh = (
  record {
    opened = record { has_callback = refl; same_context = refl; valid = h };
    not_in_receive = refl;
    not_marked = refl;
  },
  fresh,
  refl,
)
with_control-IsReady event fd receive context (none, zero, none) h fresh = refl
with_control-IsReady event fd receive context (none, suc n, rc) h fresh = refl
with_control-IsReady event fd receive context (some e, n, rc) h fresh = refl

-- Whatever the system calls answer, with a close callback and a path that fits in its buffer with its
-- NUL, af_ipcc_open_server returns a connection that is ready for its events (open, with its context,
-- both flags clear, and no sequence ID used) and its one socket, or it returns NULL, and then every
-- socket that it opened is closed, or it faults, which it does only if event_new returns NULL.
pub open_server-IsReady :
    (o : Opening) (prefix name : Bytes) (receive : Bool) (context : ℕ)
    → length prefix + length name < 128
    → IsOpening o.event context (open_server o prefix name receive context true)
unfolding open_server connect_to
open_server-IsReady o prefix name receive context h = elim (Bool-cases o.base) [
  | inr e ↦ rw e refl
  | inl base ↦ elim (Bool-cases o.memory) [
    | inr e ↦ rw (base, e) refl
    | inl memory ↦ elim (Bool-cases (is_invalid o.socket)) [
      | inl e ↦ rw (base, memory, e) refl
      | inr valid ↦ elim (Bool-cases (o.connect (take 107 (prefix ++ name)))) [
        | inr e ↦
            rw
              (
                base,
                memory,
                valid,
                le→leb (length (prefix ++ name) + 1) 128 (omega (arith, length-append prefix name)),
                e,
              )
              refl
        | inl connected ↦
            rw
              (
                base,
                memory,
                valid,
                le→leb (length (prefix ++ name) + 1) 128 (omega (arith, length-append prefix name)),
                connected,
              )
              (with_control-IsReady o.event o.socket receive context _ valid
                (init_requests-IsFresh o.pool o.mutex zero_control))
      ]
    ]
  ]
]
