-- ===== src/Abuse/Store.antt =====
-- The budget store: the trait of crates/weaver-abuse/src/store.rs, and its implementation over the
-- relay's database, `abuse_check_all` of crates/weaver-server/src/store/abuse.rs and `DbStore` of
-- crates/weaver-server/src/abuse.rs.
pub mod Charges
use tunnel_weaver.Base.{
  ℕ, ◌==◌, ltb, ◌&&◌, if◌then◌else◌, Bool, true, false, List, [], ◌∷◌, Option, none, some,
  unwrap_or, Result, ok, err, bytes_eq, bytes_eq_iff, Eq, lookup, insert, arith, ◌≡◌, ◌↔◌, refl,
}
use tunnel_weaver.Abuse.Gcra.{Gcra, Quota, Charge, check, new, from_tat_ms}
use tunnel_weaver.Abuse.Key.{Key, KeyKind, code}
use tunnel_weaver.Abuse.Policy.{PolicyId}

pub data StoreError : Type 0 where
  unavailable capacity : StoreError

-- The state of a store after a call, and what it answers.
abbrev pub Answer : Type 0 → Type 0 → Type 0
Answer S A = S × Result StoreError A

-- The trait `BudgetStore`, over the state `S`.
pub record BudgetStore (S : Type 0) : Type 0 where
  pub check_one : S → PolicyId → Key → Quota → ℕ → ℕ → ℕ → Answer S Charge
  pub check_all : S → PolicyId → List (Key × Quota) → ℕ → ℕ → ℕ → Answer S (List Charge)

-- The primary key of a row of `abuse_bucket`: the scope, the kind's code and the id.
abbrev pub RowKey : Type 0
RowKey = List ℕ × ℕ × ℕ

abbrev pub row_key_beq : RowKey → RowKey → Bool
row_key_beq (s, k, i) (t, l, j) = bytes_eq s t && (k == l && i == j)

pub row_key_beq_iff : (a b : RowKey) → (row_key_beq a b ≡ true) ↔ (a ≡ b)
row_key_beq_iff (s, k, i) (t, l, j) = ground (arith, bytes_eq_iff s t)

instance abbrev pub row_key : Eq RowKey
row_key = record { beq = row_key_beq; beq_iff = row_key_beq_iff }

pub record Row : Type 0 where
  pub tat_ms : ℕ
  pub updated_at_ms : ℕ

-- The table `abuse_bucket`.
abbrev pub Rows : Type 0
Rows = List (RowKey × Row)

abbrev pub row_of : PolicyId → Key → RowKey
row_of scope key = (scope, code key.kind, key.id)

abbrev pub limiter : Option Row → Gcra
limiter none = new
limiter (some model) = from_tat_ms model.tat_ms

-- One round of the loop: the bucket is read, charged, and written back.
unfoldable pub charge_one : Rows → PolicyId → Key → Quota → ℕ → ℕ → ℕ → Rows × Charge
charge_one rows scope key quota cost now cap =
    let (gcra, decision) = check (limiter (lookup (row_of scope key) rows)) quota cost now cap in
    (
      insert (row_of scope key) (record { tat_ms = unwrap_or gcra.tat_ms now; updated_at_ms = now })
          rows,
      decision,
    )

-- The loop over the budgets, inside the transaction.
unfoldable pub charge_all : Rows → PolicyId → List (Key × Quota) → ℕ → ℕ → ℕ → Rows × List Charge
unfolding charge_one
charge_all rows scope [] cost now cap = (rows, [])
charge_all rows scope ((key, quota) ∷ budgets) cost now cap =
    let (rows', decision) = charge_one rows scope key quota cost now cap in
    let (rows'', decisions) = charge_all rows' scope budgets cost now cap in
    (rows'', decision ∷ decisions)

-- The database: the rows, and whether its next transactions succeed. One that fails is rolled back.
pub record Db : Type 0 where
  pub rows : Rows
  pub works : Bool

unfoldable pub abuse_check_all :
    Db → PolicyId → List (Key × Quota) → ℕ → ℕ → ℕ → Answer Db (List Charge)
unfolding charge_all
abuse_check_all db scope budgets cost now cap =
    if db.works
    then (let (rows, decisions) = charge_all db.rows scope budgets cost now cap in
        (record db { rows = rows }, ok decisions))
    else (db, err StoreError.unavailable)

-- `charges.into_iter().next().ok_or(..)`.
abbrev pub first_charge : Result StoreError (List Charge) → Result StoreError Charge
first_charge (err e) = err e
first_charge (ok []) = err StoreError.unavailable
first_charge (ok (charge ∷ _)) = ok charge

abbrev pub db_check : Db → PolicyId → Key → Quota → ℕ → ℕ → ℕ → Answer Db Charge
db_check db scope key quota cost now cap =
    let (db', charges) = abuse_check_all db scope ((key, quota) ∷ []) cost now cap in
    (db', first_charge charges)

-- `impl BudgetStore for DbStore`.
abbrev pub db_store : BudgetStore Db
db_store = record { check_one = db_check; check_all = abuse_check_all }

-- `abuse_sweep`, on the rows.
unfoldable pub abuse_sweep : Rows → ℕ → Rows
abuse_sweep [] cutoff = []
abuse_sweep ((k, row) ∷ rows) cutoff =
    let rest = abuse_sweep rows cutoff in
    if ltb row.updated_at_ms cutoff then rest else (k, row) ∷ rest
