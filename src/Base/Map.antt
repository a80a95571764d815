-- ===== src/Base/Map.antt =====
-- Association lists for the program's maps: `HashMap`, and `BTreeMap` with its keys in order.
use Prim.Native.Nat.{ℕ}
use mathlib.Core.Path.{◌≡◌, refl, subst}
use mathlib.Core.Logic.{◌↔◌, inl, inr}
use mathlib.Core.Bool.{Bool, true, false}
use mathlib.Core.Option.{Option, none, some}
use mathlib.Core.List.{List, [], ◌∷◌}
use native.Mathlib.Omega.{arith}
use tunnel_weaver.Base.Tests.{◌==◌, ==_iff, if◌then◌else◌, ltb, Bool-cases, if_rule}
use tunnel_weaver.Base.Lists.{is_empty}

-- What `Eq` gives a key type.
pub record Eq (K : Type 0) : Type 0 where
  pub beq : K → K → Bool
  pub beq_iff : (a b : K) → (beq a b ≡ true) ↔ (a ≡ b)

instance abbrev pub nat_eq : Eq ℕ
nat_eq = record { beq = ◌==◌; beq_iff = ==_iff }

module _ {K : Type 0} ⦃e : Eq K⦄ {V : Type 0} where
  unfoldable pub lookup : K → List (K × V) → Option V
  lookup k [] = none
  lookup k ((j, v) ∷ m) = if e.beq j k then some v else lookup k m

  -- `HashMap::insert`: a new key goes to the end.
  unfoldable pub insert : K → V → List (K × V) → List (K × V)
  insert k v [] = (k, v) ∷ []
  insert k v ((j, w) ∷ m) = if e.beq j k then (j, v) ∷ m else (j, w) ∷ insert k v m

  unfoldable pub remove : K → List (K × V) → List (K × V)
  remove k [] = []
  remove k ((j, w) ∷ m) = if e.beq j k then remove k m else (j, w) ∷ remove k m

  pub lookup-insert :
      (k j : K) (v : V) (m : List (K × V))
      → lookup j (insert k v m) ≡ (if e.beq k j then some v else lookup j m)
  unfolding lookup insert
  lookup-insert k j v [] = refl
  lookup-insert k j v ((i, w) ∷ m) =
      ground (arith, e.beq_iff k j, e.beq_iff i k, e.beq_iff i j, lookup-insert k j v m)

  pub lookup-remove :
      (k j : K) (m : List (K × V))
      → lookup j (remove k m) ≡ (if e.beq k j then none else lookup j m)
  unfolding lookup remove
  lookup-remove k j [] = ground arith
  lookup-remove k j ((i, w) ∷ m) =
      ground (arith, e.beq_iff k j, e.beq_iff i k, e.beq_iff i j, lookup-remove k j m)

-- A predicate of every value of a map.
module _ {K : Type 0} {V : Type 0} where
  abbrev pub AllValues : (V → Type 0) → List (K × V) → Type 0
  AllValues P [] = Unit
  AllValues P ((_, v) ∷ m) = P v × AllValues P m

module _ {K : Type 0} ⦃e : Eq K⦄ {V : Type 0} (P : V → Type 0) where
  pub AllValues-lookup :
      (k : K) (m : List (K × V)) (v : V) → AllValues P m → lookup k m ≡ some v → P v
  unfolding lookup
  AllValues-lookup k [] v h q = absurd (cc)
  AllValues-lookup k ((j, w) ∷ m) v h q = elim (Bool-cases (e.beq j k)) [
    | inl b ↦ let same : w ≡ v = ground arith in subst P same h.0
    | inr b ↦ AllValues-lookup k m v h.1 (rw b at q)
  ]

  pub AllValues-remove : (k : K) (m : List (K × V)) → AllValues P m → AllValues P (remove k m)
  unfolding remove
  AllValues-remove k [] h = tt
  AllValues-remove k ((j, w) ∷ m) h =
      if_rule (AllValues P) (e.beq j k) _ _ (λ _. AllValues-remove k m h.1)
        (λ _. (h.0, AllValues-remove k m h.1))

  pub AllValues-insert :
      (k : K) (v : V) (m : List (K × V)) → P v → AllValues P m → AllValues P (insert k v m)
  unfolding insert
  AllValues-insert k v [] p h = (p, tt)
  AllValues-insert k v ((j, w) ∷ m) p h =
      if_rule (AllValues P) (e.beq j k) _ _ (λ _. (p, h.1))
        (λ _. (h.0, AllValues-insert k v m p h.1))

-- `BTreeMap::insert`, with the keys kept in increasing order.
module _ {V : Type 0} where
  unfoldable pub insert_sorted : ℕ → V → List (ℕ × V) → List (ℕ × V)
  insert_sorted k v [] = (k, v) ∷ []
  insert_sorted k v ((j, w) ∷ m) =
      if k == j
      then (k, v) ∷ m
      else if ltb k j
      then (k, v) ∷ (j, w) ∷ m
      else (j, w) ∷ insert_sorted k v m

  pub lookup-insert_sorted :
      (k j : ℕ) (v : V) (m : List (ℕ × V))
      → lookup j (insert_sorted k v m) ≡ (if k == j then some v else lookup j m)
  unfolding lookup insert_sorted
  lookup-insert_sorted k j v [] = refl
  lookup-insert_sorted k j v ((i, w) ∷ m) = ground (arith, lookup-insert_sorted k j v m)

  pub is_empty-insert_sorted :
      (k : ℕ) (v : V) (m : List (ℕ × V)) → is_empty (insert_sorted k v m) ≡ false
  unfolding insert_sorted
  is_empty-insert_sorted k v [] = refl
  is_empty-insert_sorted k v ((j, w) ∷ m) = ground arith

module _ {V : Type 0} (P : V → Type 0) where
  pub AllValues-insert_sorted :
      (k : ℕ) (v : V) (m : List (ℕ × V)) → P v → AllValues P m → AllValues P (insert_sorted k v m)
  unfolding insert_sorted
  AllValues-insert_sorted k v [] p h = (p, tt)
  AllValues-insert_sorted k v ((j, w) ∷ m) p h =
      if_rule (AllValues P) (k == j) _ _ (λ _. (p, h.1))
        (λ _.
          if_rule (AllValues P) (ltb k j) _ _ (λ _. (p, h))
            (λ _. (h.0, AllValues-insert_sorted k v m p h.1)))
