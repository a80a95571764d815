-- ===== src/Base/Rows.antt =====
-- The tables of a database, as the lists of their rows, and the queries and updates on them.
use Prim.Native.Nat.{ℕ, suc, ◌+◌, ◌-◌, ◌≤◌}
use mathlib.Core.Path.{◌≡◌, refl, subst}
use mathlib.Core.Bool.{Bool, true, false, not, ◌&&◌, ◌||◌}
use mathlib.Core.List.{List, [], ◌∷◌}
use mathlib.Core.Option.{Option, none, some}
use native.Mathlib.Omega.{arith}
use tunnel_weaver.Base.Tests.{if◌then◌else◌, is_some, Bool-cases, if_rule}
use tunnel_weaver.Base.Lists.{All}
use mathlib.Core.Logic.{inl, inr}

module _ {A : Type 0} where
  -- The first row that a query selects.
  unfoldable pub find_row : (A → Bool) → List A → Option A
  find_row p [] = none
  find_row p (row ∷ rows) = if p row then some row else find_row p rows

  -- An update of the first row that is selected, and one of all of them.
  unfoldable pub update_row : (A → Bool) → (A → A) → List A → List A
  update_row p f [] = []
  update_row p f (row ∷ rows) =
      let rest = update_row p f rows in if p row then f row ∷ rows else row ∷ rest

  unfoldable pub update_rows : (A → Bool) → (A → A) → List A → List A
  update_rows p f [] = []
  update_rows p f (row ∷ rows) =
      let rest = update_rows p f rows in if p row then f row ∷ rest else row ∷ rest

  unfoldable pub delete_rows : (A → Bool) → List A → List A
  delete_rows p [] = []
  delete_rows p (row ∷ rows) = let rest = delete_rows p rows in if p row then rest else row ∷ rest

  -- How many rows a query selects.
  unfoldable pub selected : (A → Bool) → List A → ℕ
  selected p [] = 0
  selected p (row ∷ rows) = let rest = selected p rows in if p row then suc rest else rest

module _ {A : Type 0} where
  pub selected-none :
      (p : A → Bool) (rows : List A) → is_some (find_row p rows) ≡ false → selected p rows ≡ 0
  unfolding selected find_row
  selected-none p [] h = refl
  selected-none p (row ∷ rows) h = ground (arith, selected-none p rows)

  pub find_row-none : (p : A → Bool) (rows : List A) → selected p rows ≡ 0 → find_row p rows ≡ none
  unfolding selected find_row
  find_row-none p [] h = refl
  find_row-none p (row ∷ rows) h = ground (arith, find_row-none p rows)

  -- What is found is selected.
  pub find_row-some :
      (p : A → Bool) (rows : List A) (row : A)
      → find_row p rows ≡ some row
      → (p row ≡ true) × (1 ≤ selected p rows)
  unfolding selected find_row
  find_row-some p [] row h = absurd (cc)
  find_row-some p (other ∷ rows) row h = ground (arith, find_row-some p rows row)

  pub selected_part :
      (p q : A → Bool)
      → ((row : A) → q row ≡ true → p row ≡ true)
      → (rows : List A) → selected q rows ≤ selected p rows
  unfolding selected
  selected_part p q h [] = omega arith
  selected_part p q h (row ∷ rows) = ground (arith, h row, selected_part p q h rows)

  -- An update that selects no new row.
  pub selected-update_row :
      (p q : A → Bool) (f : A → A)
      → ((row : A) → q row ≡ false → q (f row) ≡ false)
      → (rows : List A) → selected q (update_row p f rows) ≤ selected q rows
  unfolding selected update_row
  selected-update_row p q f h [] = omega arith
  selected-update_row p q f h (row ∷ rows) = ground (arith, h row, selected-update_row p q f h rows)

  -- An update that leaves the selection as it is.
  pub selected_same :
      (p q : A → Bool) (f : A → A)
      → ((row : A) → p row ≡ true → q (f row) ≡ q row)
      → (rows : List A) → selected q (update_row p f rows) ≡ selected q rows
  unfolding selected update_row
  selected_same p q f h [] = refl
  selected_same p q f h (row ∷ rows) = ground (arith, h row, selected_same p q f h rows)

  pub selected-update_rows_same :
      (p q : A → Bool) (f : A → A)
      → ((row : A) → q (f row) ≡ q row)
      → (rows : List A) → selected q (update_rows p f rows) ≡ selected q rows
  unfolding selected update_rows
  selected-update_rows_same p q f h [] = refl
  selected-update_rows_same p q f h (row ∷ rows) =
      ground (arith, h row, selected-update_rows_same p q f h rows)

  -- An update after which the row is not selected any more.
  pub selected_less :
      (p : A → Bool) (f : A → A)
      → ((row : A) → p (f row) ≡ false)
      → (rows : List A) → selected p (update_row p f rows) ≡ selected p rows - 1
  unfolding selected update_row
  selected_less p f h [] = refl
  selected_less p f h (row ∷ rows) = ground (arith, h row, selected_less p f h rows)

  -- The rows that an update of all leaves selected, where no updated row is.
  pub selected-update_rows :
      (p q : A → Bool) (f : A → A)
      → ((row : A) → q (f row) ≡ false)
      → (rows : List A)
      → selected q (update_rows p f rows) ≡ selected (λ row. q row && not (p row)) rows
  unfolding selected update_rows
  selected-update_rows p q f h [] = refl
  selected-update_rows p q f h (row ∷ rows) =
      ground (arith, h row, selected-update_rows p q f h rows)

  pub selected-delete_rows :
      (p q : A → Bool) (rows : List A)
      → selected q (delete_rows p rows) ≡ selected (λ row. q row && not (p row)) rows
  unfolding selected delete_rows
  selected-delete_rows p q [] = refl
  selected-delete_rows p q (row ∷ rows) = ground (arith, selected-delete_rows p q rows)

  pub selected_agree :
      (p q : A → Bool)
      → ((row : A) → p row ≡ q row)
      → (rows : List A) → selected p rows ≡ selected q rows
  unfolding selected
  selected_agree p q h [] = refl
  selected_agree p q h (row ∷ rows) = ground (arith, h row, selected_agree p q h rows)

  pub find_row-selected :
      (p r : A → Bool) (rows : List A) (row : A)
      → find_row r rows ≡ some row
      → p row ≡ true
      → 1 ≤ selected p rows
  unfolding selected find_row
  find_row-selected p r [] row h k = absurd (cc)
  find_row-selected p r (other ∷ rows) row h k = ground (arith, find_row-selected p r rows row)

  -- Where only one row is selected, and it is found, a closer query is answered by that row.
  pub selected_one :
      (p q r : A → Bool) (rows : List A) (row : A)
      → find_row r rows ≡ some row
      → p row ≡ true
      → selected p rows ≤ 1
      → selected (λ other. p other && q other) rows ≡ (if q row then 1 else 0)
  unfolding selected find_row
  selected_one p q r [] row h k le = absurd (cc)
  selected_one p q r (other ∷ rows) row h k le =
      let none_left = selected_part p (λ a. p a && q a) (λ a e. ground arith) rows in
      ground (arith, none_left, find_row-selected p r rows row, selected_one p q r rows row)

  pub find_row-update_row :
      (p : A → Bool) (f : A → A) (rows : List A) (row : A)
      → find_row p rows ≡ some row
      → p (f row) ≡ true
      → find_row p (update_row p f rows) ≡ some (f row)
  unfolding find_row update_row
  find_row-update_row p f [] row h k = absurd (cc)
  find_row-update_row p f (other ∷ rows) row h k = ground (arith, find_row-update_row p f rows row)

  -- Rows of one query are rows of one of two others.
  pub selected_either :
      (p q r : A → Bool)
      → ((row : A) → p row ≡ true → (q row || r row) ≡ true)
      → (rows : List A) → selected p rows ≤ selected q rows + selected r rows
  unfolding selected
  selected_either p q r h [] = omega arith
  selected_either p q r h (row ∷ rows) = ground (arith, h row, selected_either p q r h rows)

  pub selected_no :
      (p : A → Bool) → ((row : A) → p row ≡ false) → (rows : List A) → selected p rows ≡ 0
  unfolding selected
  selected_no p h [] = refl
  selected_no p h (row ∷ rows) = ground (arith, h row, selected_no p h rows)

  selected_apart :
      (p q : A → Bool) (rows : List A)
      → selected p rows ≡ 0
      → selected (λ row. q row && not (p row)) rows ≡ selected q rows
  unfolding selected
  selected_apart p q [] h = refl
  selected_apart p q (row ∷ rows) h = ground (arith, selected_apart p q rows)

  -- Where an update is of one row, it counts as it is after the update, beside the others.
  pub selected_updated :
      (p q : A → Bool) (f : A → A) (rows : List A) (row : A)
      → find_row p rows ≡ some row
      → selected p rows ≤ 1
      → selected q (update_row p f rows)
        ≡ (if q (f row) then 1 else 0) + selected (λ other. q other && not (p other)) rows
  unfolding selected find_row update_row
  selected_updated p q f [] row h le = absurd (cc)
  selected_updated p q f (other ∷ rows) row h le = elim (Bool-cases (p other)) [
    | inl hit ↦ let apart = selected_apart p q rows (ground (arith, hit)) in ground (arith, apart)
    | inr miss ↦ ground (arith, selected_updated p q f rows row)
  ]

  -- The only row that is selected is the one that is found.
  pub find_row_only :
      (p r : A → Bool) (rows : List A) (row : A)
      → find_row r rows ≡ some row
      → p row ≡ true
      → selected p rows ≤ 1
      → find_row p rows ≡ some row
  unfolding selected find_row
  find_row_only p r [] row h k le = absurd (cc)
  find_row_only p r (other ∷ rows) row h k le =
      ground (arith, find_row-selected p r rows row, find_row_only p r rows row)

-- What holds of every row, through an update and a deletion.
module _ {A : Type 0} where
  pub All-update_row :
      (P : A → Type 0) (p : A → Bool) (f : A → A)
      → ((row : A) → p row ≡ true → P (f row))
      → (rows : List A) → All P rows
      → All P (update_row p f rows)
  unfolding update_row
  All-update_row P p f k [] h = tt
  All-update_row P p f k (row ∷ rows) h =
      if_rule (All P) (p row) _ _ (λ e. (k row e, h.1))
        (λ _. (h.0, All-update_row P p f k rows h.1))

  pub All-delete_rows :
      (P Q : A → Type 0) (p : A → Bool)
      → ((row : A) → p row ≡ false → P row → Q row)
      → (rows : List A) → All P rows
      → All Q (delete_rows p rows)
  unfolding delete_rows
  All-delete_rows P Q p k [] h = tt
  All-delete_rows P Q p k (row ∷ rows) h =
      if_rule (All Q) (p row) _ _ (λ _. All-delete_rows P Q p k rows h.1)
        (λ e. (k row e h.0, All-delete_rows P Q p k rows h.1))

  pub All-find_row :
      (P : A → Type 0) (p : A → Bool) (rows : List A) (row : A)
      → All P rows
      → find_row p rows ≡ some row
      → P row
  unfolding find_row
  All-find_row P p [] row h e = absurd (cc)
  All-find_row P p (other ∷ rows) row h e = elim (Bool-cases (p other)) [
    | inl hit ↦ let same : other ≡ row = ground arith in subst P same h.0
    | inr miss ↦ All-find_row P p rows row h.1 (rw (miss, find_row) at e)
  ]

  -- An update of rows that a query does not select, before or after.
  pub find_row_other :
      (p q : A → Bool) (f : A → A)
      → ((row : A) → p row ≡ true → (q row ≡ false) × (q (f row) ≡ false))
      → (rows : List A) → find_row q (update_row p f rows) ≡ find_row q rows
  unfolding find_row update_row
  find_row_other p q f h [] = refl
  find_row_other p q f h (row ∷ rows) = ground (arith, h row, find_row_other p q f h rows)

  pub All_map :
      (P Q : A → Type 0) → ((row : A) → P row → Q row) → (rows : List A) → All P rows → All Q rows
  All_map P Q f [] h = tt
  All_map P Q f (row ∷ rows) h = (f row h.0, All_map P Q f rows h.1)
