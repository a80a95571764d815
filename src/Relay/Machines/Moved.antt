-- ===== src/Relay/Machines/Moved.antt =====
-- The hostnames of a machine's services, while they are moved one after another.
use tunnel_weaver.Base.{
  ℕ, ◌==◌, ◌++◌, not, if◌then◌else◌, if_rule, Bool, true, false, List, [], ◌∷◌, Option, none, some,
  is_some, All, arith, ◌≡◌, ◌⊎◌, inl, inr, Bool-cases, Option-cases, bytes_eq, bytes_eq_iff, ==_iff,
  find_row, delete_rows, All-update_row, All-delete_rows,
}
use tunnel_weaver.Relay.Machines.{Service, Domain}
use tunnel_weaver.Relay.Machines.Hostnames.{
  is_named, label, links, strip_prefix, moved_row, move_domains, move_services,
}

unfoldable pub has_service : ℕ → List Service → Bool
has_service id [] = false
has_service id (v ∷ services) = if v.id == id then true else has_service id services

links-some : (id : ℕ) (d : Domain) → links id d ≡ true → d.service_id ≡ some id
links-some id d h = elim (Option-cases d.service_id) [
  | inl e ↦ absurd (ground arith)
  | inr (other, e) ↦ ground (arith, ==_iff other id)
]

links-other :
    (id other : ℕ) (d : Domain)
    → links id d ≡ false
    → d.service_id ≡ some other
    → (id == other) ≡ false
links-other id other d h e = ground (arith, ==_iff id other)

-- The hostname of each service, by the old name of the machine and by the new one.
module _ (old next : ℕ → Option (List ℕ)) where
  -- A linked hostname is the new one, or the old one of a service that is still to come.
  abbrev pub IsMoving : List Service → Domain → Type 0
  IsMoving services d =
      (id : ℕ)
      → d.service_id ≡ some id
      → (next id ≡ some d.name) ⊎ ((old id ≡ some d.name) × (has_service id services ≡ true))

  moved_row-IsMoving :
      (services later : List Service) (id : ℕ) (row : Domain) (host : List ℕ)
      (domains : List Domain)
      → next id ≡ some host
      → ((d : Domain) → bytes_eq d.name row.name ≡ false → IsMoving services d → IsMoving later d)
      → All (IsMoving services) domains
      → All (IsMoving later) (moved_row id row host domains)
  moved_row-IsMoving services later id row host domains n k h =
      All-delete_rows (IsMoving services) (IsMoving later) (is_named row.name) k _ (
        if_rule (All (IsMoving services)) (is_some (find_row (is_named host) domains)) _ _
          (λ _.
            All-update_row (IsMoving services) (is_named host) _
              (λ d e j f. inl (ground (arith, n, bytes_eq_iff d.name host))) domains h)
          (λ _. ((λ j f. inl (ground (arith, n))), h)))

  module _ (person current name : List ℕ) (service : Service) where
    -- What the names say of the hostnames of the service that is moved.
    abbrev pub Moves : Type 0
    Moves =
        (host : List ℕ)
        → old service.id ≡ some host
        → (rest : List ℕ) × (strip_prefix (label person current) host ≡ some rest)
          × (next service.id ≡ some (label person name ++ rest))
          × (bytes_eq (label person name ++ rest) host ≡ false)

    abbrev pub Stays : Type 0
    Stays =
        (host : List ℕ)
        → next service.id ≡ some host
        → strip_prefix (label person current) host ≡ none

    abbrev IsTyped : Domain → Type 0
    IsTyped d = (next service.id ≡ some d.name) ⊎ (old service.id ≡ some d.name)

    move_domains-IsMoving :
        Moves
        → Stays
        → (later : List Service) (olds domains : List Domain) → All IsTyped olds
        → All (IsMoving later) domains
        → All (IsMoving later) (move_domains person current name service.id olds domains)
    unfolding move_domains
    move_domains-IsMoving moves stays later [] domains t h = h
    move_domains-IsMoving moves stays later (o ∷ olds) domains (inl n, t) h =
        rw (stays o.name n) (move_domains-IsMoving moves stays later olds domains t h)
    move_domains-IsMoving moves stays later (o ∷ olds) domains (inr e, t) h =
        let (rest, strip, n, apart) = moves o.name e in
        rw (strip, apart)
          (move_domains-IsMoving moves stays later olds _ t (
            moved_row-IsMoving later later service.id o (label person name ++ rest) domains n
              (λ d _ g. g) h))

    -- A row that is left has another name than the old one of the service.
    settled :
        (later : List Service) (o d : Domain)
        → old service.id ≡ some o.name
        → bytes_eq d.name o.name ≡ false
        → IsMoving (service ∷ later) d
        → IsMoving later d
    unfolding has_service
    settled later o d e apart h id f = elim (h id f) [
      | inl n ↦ inl n
      | inr (g, there) ↦
          inr (
            g,
            ground (arith, g, e, there, apart, ==_iff service.id id, bytes_eq_iff d.name o.name),
          )
    ]

    abbrev IsNew : Domain → Type 0
    IsNew d = next service.id ≡ some d.name

    -- Once the rows that are linked to the service are through, it is no longer to come.
    move_domains-IsSettled :
        Moves
        → Stays
        → (later : List Service) (olds domains : List Domain) → All IsTyped olds
        → (All IsNew olds → All (IsMoving later) domains)
        → All (IsMoving (service ∷ later)) domains
        → All (IsMoving later) (move_domains person current name service.id olds domains)
    unfolding move_domains
    move_domains-IsSettled moves stays later [] domains t k h = k tt
    move_domains-IsSettled moves stays later (o ∷ olds) domains (inl n, t) k h =
        rw (stays o.name n)
          (move_domains-IsSettled moves stays later olds domains t (λ all. k (n, all)) h)
    move_domains-IsSettled moves stays later (o ∷ olds) domains (inr e, t) k h =
        let (rest, strip, n, apart) = moves o.name e in
        rw (strip, apart)
          (move_domains-IsMoving moves stays later olds _ t (
            moved_row-IsMoving (service ∷ later) later service.id o (label person name ++ rest)
              domains n (λ d a g. settled later o d e a g) h))

    -- The rows that are linked to the service.
    typed :
        (later : List Service) (domains : List Domain)
        → All (IsMoving (service ∷ later)) domains
        → All IsTyped (delete_rows (λ d. not (links service.id d)) domains)
    typed later domains h =
        All-delete_rows (IsMoving (service ∷ later)) IsTyped (λ d. not (links service.id d))
          (λ d e g. (elim (g service.id (links-some service.id d (ground (arith, e)))) [
            | inl n ↦ inl n
            | inr (o, there) ↦ inr o
          ]))
          domains h

    untouched :
        (later : List Service) (domains : List Domain)
        → All (IsMoving (service ∷ later)) domains
        → All IsNew (delete_rows (λ d. not (links service.id d)) domains)
        → All (IsMoving later) domains
    unfolding delete_rows has_service
    untouched later [] h all = tt
    untouched later (d ∷ domains) h all = elim (Bool-cases (links service.id d)) [
      | inl e ↦
          let rows : All IsNew (d ∷ delete_rows (λ d. not (links service.id d)) domains) =
            rw e at all in
          (
            (λ id f. inl (ground (arith, rows.0, links-some service.id d e))),
            untouched later domains h.1 rows.1,
          )
      | inr e ↦
          let rows : All IsNew (delete_rows (λ d. not (links service.id d)) domains) =
            rw e at all in
          (
            (λ id f. elim (h.0 id f) [
              | inl n ↦ inl n
              | inr (o, there) ↦ inr (o, ground (arith, there, links-other service.id id d e))
            ]),
            untouched later domains h.1 rows,
          )
    ]

  pub move_services-IsMoving :
      (person current name : List ℕ) (services : List Service) (domains : List Domain)
      → All (λ v. Moves person current name v × Stays person current name v) services
      → All (IsMoving services) domains
      → All (IsMoving []) (move_services person current name services domains)
  unfolding move_services
  move_services-IsMoving person current name [] domains facts h = h
  move_services-IsMoving person current name (v ∷ services) domains ((moves, stays), facts) h =
      let olds = delete_rows (λ d. not (links v.id d)) domains in
      move_services-IsMoving person current name services
        (move_domains person current name v.id olds domains) facts
        (move_domains-IsSettled person current name v moves stays services olds domains
          (typed person current name v services domains h)
          (untouched person current name v services domains h) h)
