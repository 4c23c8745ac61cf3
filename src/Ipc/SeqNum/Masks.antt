-- ===== src/Ipc/SeqNum/Masks.antt =====
-- The macros on sequence numbers of pkg/src/af_ipc_prv.h as arithmetic.
use af_ipc.Common.{
  ℕ, ◌+◌, ◌*◌, ◌/◌, ◌%◌, ◌^◌, ◌≤◌, ◌<◌, ◌≡◌, refl, ap, sym, ◌∙◌, true, false, not, arith, bit_and,
  bit_or, ◌==◌,
}
use af_ipc.Common.Bits.{
  bit_and_mask, bit_and_high, bit_or_fields, bit_and_split, bit_or_split, bit_or-zero, zero-bit_or,
}
use af_ipc.Ipc.SeqNum.{
  get_client_id, get_seq_id, seqnum_is_new_request, build_seqnum, get_client_id_from_seq_num,
  seq_num_is_request, mark_new_request, tag_client,
}

pub get_seq_id_lem : (s : ℕ) → get_seq_id s ≡ s % 2 ^ 16
unfolding get_seq_id
get_seq_id_lem s = bit_and_mask 16 s

and_0x8000 : (t : ℕ) → bit_and t 0x8000 ≡ t / 2 ^ 15 % 2 * 2 ^ 15
and_0x8000 t = rw (bit_and_high 15 1 t) (rw (bit_and_mask 1 (t / 2 ^ 15)))

pub is_new_request_of_lt : (s : ℕ) → s < 2 ^ 15 → seqnum_is_new_request s ≡ false
unfolding seqnum_is_new_request
is_new_request_of_lt s h = ground (arith, and_0x8000 s)

pub is_new_request_of_ge : (s : ℕ) → 2 ^ 15 ≤ s → s < 2 ^ 16 → seqnum_is_new_request s ≡ true
unfolding seqnum_is_new_request
is_new_request_of_ge s h k = ground (arith, and_0x8000 s)

-- A sequence ID has its bit 15 clear, so that marking it is an addition.
pub mark_new_request_lem : (s : ℕ) → s < 2 ^ 15 → mark_new_request s ≡ s + 2 ^ 15
unfolding mark_new_request
mark_new_request_lem s h = ground (arith, bit_or_split 15 0 s 1 0, bit_or-zero s, zero-bit_or 1)

pub build_seqnum_lem : (c s : ℕ) → s < 2 ^ 16 → build_seqnum c s ≡ c * 2 ^ 16 + s
unfolding build_seqnum
build_seqnum_lem c s h = bit_or_fields 16 c s h

or_shifted : (c s : ℕ) → s < 2 ^ 16 → bit_or s (c * 2 ^ 16) ≡ c * 2 ^ 16 + s
or_shifted c s hs = ground (arith, bit_or_split 16 0 s c 0, zero-bit_or c, bit_or-zero s)

-- The receiver's number: the client ID in the high half, the sequence ID with bit 15 clear.
pub tag_client_lem : (c s : ℕ) → c < 2 ^ 16 → s < 2 ^ 16 → tag_client c s ≡ c * 2 ^ 16 + s % 2 ^ 15
unfolding tag_client
tag_client_lem c s hc hs =
    ap (λ z. bit_and (bit_or s z) 0xFFFF7FFF) (omega arith)
    ∙ ap (λ z. bit_and z 0xFFFF7FFF) (or_shifted c s hs)
    ∙ bit_and_split 16 c s 0xFFFF 0x7FFF hs (omega arith)
    ∙ omega (arith, bit_and_mask 16 c, bit_and_mask 15 s)

pub client_id_lem : (n : ℕ) → get_client_id_from_seq_num n ≡ n / 2 ^ 16 % 2 ^ 16
unfolding get_client_id_from_seq_num get_client_id
client_id_lem n = refl

is_request_lem : (n : ℕ) → seq_num_is_request n ≡ not (n % 2 ^ 16 == 0)
unfolding seq_num_is_request
is_request_lem n = ap (λ k. not (k == 0)) (get_seq_id_lem n)

pub tagged :
    (c s : ℕ)
    → c < 2 ^ 16
    → s < 2 ^ 15
    → tag_client c (get_seq_id (mark_new_request s)) ≡ c * 2 ^ 16 + s
tagged c s hc hs =
    ap (tag_client c)
      (get_seq_id_lem (mark_new_request s) ∙ omega (arith, mark_new_request_lem s hs))
    ∙ tag_client_lem c (s + 2 ^ 15) hc (omega arith)
    ∙ omega arith

-- What an application sees of a request and its answer: the client ID and the sequence ID come apart
-- again from the number that the receiver made, bit 15 of it is clear, and it counts as a request.
pub tag_client_parts :
    (c s : ℕ)
    → c < 2 ^ 16
    → 0 < s
    → s < 2 ^ 15
    → let n = tag_client c (get_seq_id (mark_new_request s)) in
      (get_client_id_from_seq_num n ≡ c)
      × (get_seq_id n ≡ s)
      × (seqnum_is_new_request (get_seq_id n) ≡ false)
      × (seq_num_is_request n ≡ true)
      × (n ≡ build_seqnum c s)
tag_client_parts c s hc h0 hs = rw (tagged c s hc hs) (
  client_id_lem (c * 2 ^ 16 + s) ∙ omega arith,
  low,
  ap seqnum_is_new_request low ∙ is_new_request_of_lt s hs,
  is_request_lem (c * 2 ^ 16 + s) ∙ ground arith,
  sym (build_seqnum_lem c s (omega arith)),
)
  where
    low : get_seq_id (c * 2 ^ 16 + s) ≡ s
    low = get_seq_id_lem (c * 2 ^ 16 + s) ∙ omega arith
