-- ===== src/Ipc/Requests/Ids.antt =====
-- The sequence IDs that af_ipc_util_gen_seq_id of pkg/src/af_ipc_common.c generates.
use af_ipc.Common.{ℕ, zero, suc, ◌+◌, ◌%◌, ◌^◌, ◌<◌, ◌≡◌, ◌≢◌, arith}
use af_ipc.Common.Bits.{bit_and_mask}
use af_ipc.Ipc.Requests.{ReqControl, next_seq_id, gen_seq_id}

pub next_seq_id_lem : (last : ℕ) → last < 2 ^ 15 → next_seq_id last ≡ last % 32767 + 1
unfolding next_seq_id
next_seq_id_lem last h = ground (arith, bit_and_mask 15 (last + 1))

pub next_seq_id_bounds :
    (last : ℕ) → last < 2 ^ 15 → (0 < next_seq_id last) × (next_seq_id last < 2 ^ 15)
next_seq_id_bounds last h = omega (arith, next_seq_id_lem last h)

-- The ID that the (k + 1)-th call from a state on generates.
abbrev pub seq_id_at : ℕ → ReqControl → ℕ
seq_id_at zero rc = (gen_seq_id rc).0
seq_id_at (suc k) rc = seq_id_at k (gen_seq_id rc).1

seq_id_at_lem :
    (k : ℕ) (rc : ReqControl)
    → rc.last_seq_id < 2 ^ 15
    → seq_id_at k rc ≡ (rc.last_seq_id + k) % 32767 + 1
unfolding gen_seq_id
seq_id_at_lem zero rc h = omega (arith, next_seq_id_lem rc.last_seq_id h)
seq_id_at_lem (suc k) rc h = omega (
  arith,
  next_seq_id_lem rc.last_seq_id h,
  seq_id_at_lem k (record rc { last_seq_id = next_seq_id rc.last_seq_id })
      (next_seq_id_bounds rc.last_seq_id h).1,
)

-- From a last ID of 15 bits on, every ID is nonzero and has bit 15 clear, two calls give different
-- IDs if fewer than 32766 calls lie between them, and the 32767th call after a call gives the same
-- again.
pub gen_seq_id_cycle :
    (rc : ReqControl) (i d : ℕ)
    → rc.last_seq_id < 2 ^ 15
    → 0 < d
    → d < 32767
    → (0 < seq_id_at i rc)
      × (seq_id_at i rc < 2 ^ 15)
      × (seq_id_at i rc ≢ seq_id_at (i + d) rc)
      × (seq_id_at (i + 32767) rc ≡ seq_id_at i rc)
gen_seq_id_cycle rc i d h p q =
    let a = seq_id_at_lem i rc h in
    let b = seq_id_at_lem (i + d) rc h in
    let c = seq_id_at_lem (i + 32767) rc h in (omega arith, omega arith, omega arith, omega arith)
