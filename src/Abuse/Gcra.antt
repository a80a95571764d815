-- ===== src/Abuse/Gcra.antt =====
-- crates/weaver-abuse/src/gcra.rs: the limiter of one key. Instants are Unix milliseconds from 1970
-- on, as natural numbers below `i64::MAX`. A difference that the source saturates below zero stops at
-- zero here; it is only compared with an instant.
pub mod Limit
pub mod Bucket
use tunnel_weaver.Base.{
  ℕ, ◌-◌, ◌/◌, min, max, leb, if◌then◌else◌, Option, none, some, unwrap_or, sat_sub, sat_add63,
  sat_mul63,
}

pub record Rate : Type 0 where
  pub units : ℕ  -- u32
  pub per_ms : ℕ

pub record Quota : Type 0 where
  pub burst : ℕ  -- u32
  pub refill : Rate

pub data Outcome : Type 0 where
  admitted throttled : Outcome

pub record Charge : Type 0 where
  pub outcome : Outcome
  pub retry_after_ms : ℕ

pub record Gcra : Type 0 where
  pub tat_ms : Option ℕ

unfoldable pub new : Gcra
new = record { tat_ms = none }

unfoldable pub from_tat_ms : ℕ → Gcra
from_tat_ms tat = record { tat_ms = some tat }

unfoldable pub emission_ms : Quota → ℕ
emission_ms quota = max (quota.refill.per_ms / max quota.refill.units 1) 1

unfoldable pub tolerance_ms : Quota → ℕ
tolerance_ms quota = sat_mul63 (sat_sub quota.burst 1) (emission_ms quota)

unfoldable pub cost_ms : Quota → ℕ → ℕ
cost_ms quota cost = sat_mul63 cost (emission_ms quota)

-- `tat_ms.unwrap_or(now_ms).max(now_ms)`.
abbrev pub tat_at : Gcra → ℕ → ℕ
tat_at g now = max (unwrap_or g.tat_ms now) now

-- `clamp(1, retry_cap_ms.max(1))`.
abbrev pub bounded : ℕ → ℕ → ℕ
bounded wait retry_cap_ms = min (max wait 1) (max retry_cap_ms 1)

unfoldable pub check : Gcra → Quota → ℕ → ℕ → ℕ → Gcra × Charge
check g quota cost now retry_cap_ms =
    let allow_at = sat_sub (tat_at g now) (tolerance_ms quota) in
    if leb allow_at now
    then (
      record { tat_ms = some (sat_add63 (tat_at g now) (cost_ms quota cost)) },
      record { outcome = Outcome.admitted; retry_after_ms = 0 },
    )
    else (
      g,
      record {
        outcome = Outcome.throttled;
        retry_after_ms = bounded (allow_at - now) retry_cap_ms;
      },
    )
