-- ===== src/Abuse/Store/Charges.antt =====
-- The rows that a charge reads and writes, and those that a sweep drops.
use tunnel_weaver.Base.{
  ℕ, ◌+◌, ◌≤◌, ◌≡◌, refl, Bool, true, false, ◌||◌, ltb, if◌then◌else◌, List, [], ◌∷◌, map, Option,
  none, some, unwrap_or, ok, All, lookup, lookup-insert, arith, ◌∙◌, ◌⊎◌, ap,
}
use tunnel_weaver.Abuse.Gcra.{Quota, Charge, check, tolerance_ms, cost_ms, from_tat_ms, new}
use tunnel_weaver.Abuse.Key.{Key}
use tunnel_weaver.Abuse.Policy.{PolicyId}
use tunnel_weaver.Abuse.Store.{
  Rows, Row, RowKey, Db, row_of, row_key_beq, row_key_beq_iff, row_key, limiter, charge_one,
  charge_all, abuse_check_all, abuse_sweep,
}
use tunnel_weaver.Abuse.Gcra.Limit.{cost_ms-le, IsBounded, check-IsBounded}

-- Whether one of the budgets is kept under a row's key.
unfoldable pub is_charged : RowKey → PolicyId → List (Key × Quota) → Bool
is_charged k scope [] = false
is_charged k scope ((key, quota) ∷ budgets) =
    row_key_beq (row_of scope key) k || is_charged k scope budgets

charge_one-frame :
    (rows : Rows) (scope : PolicyId) (key : Key) (quota : Quota) (cost now cap : ℕ) (k : RowKey)
    → row_key_beq (row_of scope key) k ≡ false
    → lookup k (charge_one rows scope key quota cost now cap).0 ≡ lookup k rows
unfolding charge_one
charge_one-frame rows scope key quota cost now cap k h = rw (
  lookup-insert (row_of scope key) k
      (record {
        tat_ms =
            unwrap_or (check (limiter (lookup (row_of scope key) rows)) quota cost now cap).0.tat_ms
              now;
        updated_at_ms = now;
      })
      rows,
  h,
)

charge_all-frame :
    (rows : Rows) (scope : PolicyId) (budgets : List (Key × Quota)) (cost now cap : ℕ) (k : RowKey)
    → is_charged k scope budgets ≡ false
    → lookup k (charge_all rows scope budgets cost now cap).0 ≡ lookup k rows
unfolding charge_all is_charged
charge_all-frame rows scope [] cost now cap k h = refl
charge_all-frame rows scope ((key, quota) ∷ budgets) cost now cap k h =
    let apart : (row_key_beq (row_of scope key) k ≡ false) × (is_charged k scope budgets ≡ false) =
      ground arith in
    charge_all-frame (charge_one rows scope key quota cost now cap).0 scope budgets cost now cap k
      apart.1
    ∙ charge_one-frame rows scope key quota cost now cap k apart.0

-- A charge leaves every row alone that none of its budgets is kept under, and a transaction that fails
-- leaves all rows.
pub abuse_check_all-frame :
    (db : Db) (scope : PolicyId) (budgets : List (Key × Quota)) (cost now cap : ℕ) (k : RowKey)
    → (db.works ≡ false) ⊎ (is_charged k scope budgets ≡ false)
    → lookup k (abuse_check_all db scope budgets cost now cap).0.rows ≡ lookup k db.rows
unfolding abuse_check_all
abuse_check_all-frame db scope budgets cost now cap k h =
    ground (arith, charge_all-frame db.rows scope budgets cost now cap k)

-- The budgets are kept under different rows.
abbrev pub IsDistinct : PolicyId → List (Key × Quota) → Type 0
IsDistinct scope [] = Unit {0}
IsDistinct scope ((key, quota) ∷ budgets) =
    (is_charged (row_of scope key) scope budgets ≡ false) × IsDistinct scope budgets

-- The decision of one budget on its own.
unfoldable pub alone : Rows → PolicyId → ℕ → ℕ → ℕ → Key × Quota → Charge
alone rows scope cost now cap (key, quota) =
    (check (limiter (lookup (row_of scope key) rows)) quota cost now cap).1

alone-frame :
    (rows : Rows) (scope : PolicyId) (key : Key) (quota : Quota) (budgets : List (Key × Quota))
    (cost now cap : ℕ)
    → is_charged (row_of scope key) scope budgets ≡ false
    → map (alone (charge_one rows scope key quota cost now cap).0 scope cost now cap) budgets
      ≡ map (alone rows scope cost now cap) budgets
unfolding is_charged alone
alone-frame rows scope key quota [] cost now cap h = refl
alone-frame rows scope key quota ((other, limit) ∷ budgets) cost now cap h =
    let apart : (row_key_beq (row_of scope other) (row_of scope key) ≡ false)
        × (is_charged (row_of scope key) scope budgets ≡ false) =
      ground arith in
    let turned : row_key_beq (row_of scope key) (row_of scope other) ≡ false = ground (
      arith,
      row_key_beq_iff (row_of scope key) (row_of scope other),
      row_key_beq_iff (row_of scope other) (row_of scope key),
    ) in
    let same = charge_one-frame rows scope key quota cost now cap (row_of scope other) turned in
    λ i.
      (check (limiter (same i)) limit cost now cap).1
      ∷ alone-frame rows scope key quota budgets cost now cap apart.1 i

charge_all-alone :
    (rows : Rows) (scope : PolicyId) (budgets : List (Key × Quota)) (cost now cap : ℕ)
    → IsDistinct scope budgets
    → (charge_all rows scope budgets cost now cap).1 ≡ map (alone rows scope cost now cap) budgets
unfolding charge_all alone
charge_all-alone rows scope [] cost now cap d = refl
charge_all-alone rows scope ((key, quota) ∷ budgets) cost now cap d =
    ap (◌∷◌ (alone rows scope cost now cap (key, quota))) (
      charge_all-alone (charge_one rows scope key quota cost now cap).0 scope budgets cost now cap
        d.1
      ∙ alone-frame rows scope key quota budgets cost now cap d.0)

-- Budgets that are kept under different rows do not disturb one another: the decisions of one
-- transaction are those that the limiters, as they stood before it, take each on its own.
pub abuse_check_all-alone :
    (db : Db) (scope : PolicyId) (budgets : List (Key × Quota)) (cost now cap : ℕ)
    → db.works ≡ true
    → IsDistinct scope budgets
    → (abuse_check_all db scope budgets cost now cap).1
      ≡ ok (map (alone db.rows scope cost now cap) budgets)
unfolding abuse_check_all
abuse_check_all-alone db scope budgets cost now cap w d =
    rw (w, charge_all-alone db.rows scope budgets cost now cap d)

-- A row whose debt is at most the tolerance and one request of `most` units past its last charge.
abbrev pub IsSettled : Quota → ℕ → Option Row → Type 0
IsSettled quota most none = Unit {0}
IsSettled quota most (some row) =
    row.tat_ms ≤ row.updated_at_ms + tolerance_ms quota + cost_ms quota most

-- The row's last charge is not in the future.
abbrev pub IsPast : ℕ → Option Row → Type 0
IsPast now none = Unit {0}
IsPast now (some row) = row.updated_at_ms ≤ now

check-settles :
    (row : Option Row) (quota : Quota) (cost most now cap : ℕ)
    → IsSettled quota most row
    → IsPast now row
    → cost_ms quota cost ≤ cost_ms quota most
    → unwrap_or (check (limiter row) quota cost now cap).0.tat_ms now
      ≤ now + tolerance_ms quota + cost_ms quota most
unfolding check from_tat_ms new
check-settles none quota cost most now cap h p c = ground arith
check-settles (some row) quota cost most now cap h p c = ground arith

-- A charge of at most `most` units keeps its row settled, under a clock that does not go back.
pub charge_one-IsSettled :
    (rows : Rows) (scope : PolicyId) (key : Key) (quota : Quota) (cost most now cap : ℕ)
    → IsSettled quota most (lookup (row_of scope key) rows)
    → IsPast now (lookup (row_of scope key) rows)
    → cost ≤ most
    → IsSettled quota most
        (lookup (row_of scope key) (charge_one rows scope key quota cost now cap).0)
unfolding charge_one
charge_one-IsSettled rows scope key quota cost most now cap h p c = ground (
  arith,
  row_key_beq_iff (row_of scope key) (row_of scope key),
  lookup-insert (row_of scope key) (row_of scope key)
      (record {
        tat_ms =
            unwrap_or (check (limiter (lookup (row_of scope key) rows)) quota cost now cap).0.tat_ms
              now;
        updated_at_ms = now;
      })
      rows,
  check-settles (lookup (row_of scope key) rows) quota cost most now cap h p
      (cost_ms-le quota cost most c),
)

-- No two rows have one key.
abbrev pub IsUnique : Rows → Type 0
IsUnique [] = Unit {0}
IsUnique ((k, row) ∷ rows) = (lookup k rows ≡ none) × IsUnique rows

-- A row that a sweep keeps.
pub kept : ℕ → Option Row → Option Row
kept cutoff none = none
kept cutoff (some row) = if ltb row.updated_at_ms cutoff then none else some row

lookup-abuse_sweep :
    (rows : Rows) (cutoff : ℕ) (k : RowKey)
    → IsUnique rows
    → lookup k (abuse_sweep rows cutoff) ≡ kept cutoff (lookup k rows)
unfolding abuse_sweep lookup kept
lookup-abuse_sweep [] cutoff k u = refl
lookup-abuse_sweep ((j, row) ∷ rows) cutoff k u =
    ground (arith, row_key_beq_iff j k, lookup-abuse_sweep rows cutoff k u.1)

check-kept :
    (row : Option Row) (quota : Quota) (cost most cutoff now cap : ℕ)
    → IsSettled quota most row
    → cutoff + tolerance_ms quota + cost_ms quota most ≤ now
    → (check (limiter (kept cutoff row)) quota cost now cap).1
      ≡ (check (limiter row) quota cost now cap).1
unfolding check from_tat_ms new kept
check-kept none quota cost most cutoff now cap h c = refl
check-kept (some row) quota cost most cutoff now cap h c = ground arith

-- A sweep forgets nothing that counts: where the cutoff lies the tolerance and one request of `most`
-- units back, a settled row's next charge is decided as if no row had been dropped.
pub abuse_sweep-charge_one :
    (rows : Rows) (scope : PolicyId) (key : Key) (quota : Quota) (cost most cutoff now cap : ℕ)
    → IsUnique rows
    → IsSettled quota most (lookup (row_of scope key) rows)
    → cutoff + tolerance_ms quota + cost_ms quota most ≤ now
    → (charge_one (abuse_sweep rows cutoff) scope key quota cost now cap).1
      ≡ (charge_one rows scope key quota cost now cap).1
unfolding charge_one
abuse_sweep-charge_one rows scope key quota cost most cutoff now cap u h c = rw (
  lookup-abuse_sweep rows cutoff (row_of scope key) u,
  check-kept (lookup (row_of scope key) rows) quota cost most cutoff now cap h c,
)

pub charge_all-IsBounded :
    (rows : Rows) (scope : PolicyId) (budgets : List (Key × Quota)) (cost now cap : ℕ)
    → All (IsBounded cap) (charge_all rows scope budgets cost now cap).1
unfolding charge_all
charge_all-IsBounded rows scope [] cost now cap = tt
charge_all-IsBounded rows scope ((key, quota) ∷ budgets) cost now cap = (
  check-IsBounded (limiter (lookup (row_of scope key) rows)) quota cost now cap,
  charge_all-IsBounded (charge_one rows scope key quota cost now cap).0 scope budgets cost now cap,
)
