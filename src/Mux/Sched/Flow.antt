-- ===== src/Mux/Sched/Flow.antt =====
-- `Flow` of crates/weaver-mux/src/sched/qfq.rs, and the fixed-point arithmetic on timestamps.
use tunnel_weaver.Base.{
  ℕ, zero, suc, ◌+◌, ◌-◌, ◌*◌, ◌/◌, ◌^◌, ◌==◌, leb, if◌then◌else◌, Bool, Option, none, some, u64,
  sat_sub, min, u64_max, false,
}

abbrev pub one_fp : ℕ
one_fp = 2 ^ 20

abbrev pub min_slot_shift : ℕ
min_slot_shift = 6

abbrev pub max_index : ℕ
max_index = 56

abbrev pub rebase_at : ℕ
rebase_at = 2 ^ 62

abbrev pub rebase_to : ℕ
rebase_to = 2 ^ 40

pub record Flow : Type 0 where
  pub weight : ℕ  -- u32
  pub inv_w : ℕ  -- u64
  pub s : ℕ  -- u64
  pub f : ℕ  -- u64
  pub backlogged : Bool
  pub head_len : ℕ  -- u32
  pub group : ℕ  -- u32

unfoldable pub round_down : ℕ → ℕ → ℕ
round_down ts shift = ts / 2 ^ shift * 2 ^ shift

-- How many bits a number takes, for a number that takes `fuel` at most.
unfoldable pub bit_length : ℕ → ℕ → ℕ
bit_length zero x = 0
bit_length (suc fuel) x = let rest = bit_length fuel (x / 2) in if x == 0 then 0 else suc rest

-- `u64::leading_zeros`.
unfoldable pub leading_zeros : ℕ → ℕ
unfolding bit_length
leading_zeros x = 64 - bit_length 64 x

unfoldable pub ceil_log2 : ℕ → ℕ
unfolding leading_zeros
ceil_log2 x = if leb x 1 then 0 else 64 - leading_zeros (x - 1)

unfoldable pub group_index : ℕ → ℕ → ℕ
unfolding ceil_log2
group_index lmax inv_w =
    min (sat_sub (ceil_log2 (min (lmax * inv_w) u64_max)) min_slot_shift) max_index

-- The slot that a flow waits in.
abbrev pub slot_key : Flow → ℕ
slot_key flow = round_down flow.s (flow.group + min_slot_shift)

-- A flow whose timestamps `maybe_rebase` has shifted.
abbrev pub shift_flow : ℕ → Flow → Flow
shift_flow delta flow = record flow { s = sat_sub flow.s delta; f = sat_sub flow.f delta }

-- A flow after a service: `S ← F`, `F ← S + next_len / w`, or out of the backlog.
abbrev pub advance : Flow → Option ℕ → Flow
advance flow none = record flow { s = flow.f; backlogged = false; head_len = 0 }
advance flow (some n) = record flow { s = flow.f; f = u64 (flow.f + n * flow.inv_w); head_len = n }

abbrev pub new_key : Flow → Option ℕ → Option ℕ
new_key flow none = none
new_key flow (some n) = some (round_down flow.f (flow.group + min_slot_shift))

-- `checked_div` is `none` at a divisor of 0.
abbrev pub advance_v : ℕ → ℕ → ℕ → ℕ
advance_v v len wsum = if wsum == 0 then v else u64 (v + u64 (len * one_fp) / wsum)
