-- ===== src/Relay/Machines/Owned.antt =====
-- The hostname of a service, as the names of its person, its machine and itself give it.
use tunnel_weaver.Base.{
  ℕ, ◌==◌, ==_iff, ◌++◌, not, if_rule, true, false, List, [], ◌∷◌, Option, none, some, Result, All,
  arith, ◌≡◌, refl, sym, ap, ◌∙◌, inl, inr, Bool-cases, Option-cases, subst, bytes_eq, bytes_eq_iff,
  to_ascii_lowercase, find_row, update_row, delete_rows, All-delete_rows, All-find_row, All_map,
  find_row_other, find_row-update_row,
}
use tunnel_weaver.Relay.Registry.{flat_hostname}
use tunnel_weaver.Relay.Names.{is_valid_person_or_machine}
use tunnel_weaver.Relay.Names.Split.{flat_hostname_injective}
use tunnel_weaver.Relay.Control.{is_valid_service_name}
use tunnel_weaver.Relay.Machines.{
  Person, Machine, Service, Domain, Store, StoreError, has_id, is_service_of, is_taken,
}
use tunnel_weaver.Relay.Machines.Hostnames.{
  label, strip_prefix, move_services, with_name, rename_machine,
}
use tunnel_weaver.Relay.Machines.Moved.{has_service, IsMoving, Moves, Stays, move_services-IsMoving}
use tunnel_weaver.Relay.Machines.Commands.{found_id}
use tunnel_weaver.Relay.Machines.Strip.{behind, strip_prefix-flat_hostname, strip_prefix_stays}

abbrev person_host : List ℕ → List ℕ → List ℕ → Option Person → Option (List ℕ)
person_host root service machine none = none
person_host root service machine (some p) = some (flat_hostname p.name machine service root)

abbrev machine_host : Store → List ℕ → List ℕ → Option Machine → Option (List ℕ)
machine_host s root service none = none
machine_host s root service (some m) =
    person_host root service m.name (find_row (λ (p : Person). p.id == m.person_id) s.persons)

abbrev service_host : Store → List ℕ → Option Service → Option (List ℕ)
service_host s root none = none
service_host s root (some v) =
    machine_host s root v.name (find_row (has_id v.machine_id) s.machines)

-- The hostname of a service under a root, by the rows of the service, its machine and its person.
unfoldable pub host_in : Store → List ℕ → ℕ → Option (List ℕ)
host_in s root id = service_host s root (find_row (λ (v : Service). v.id == id) s.services)

-- Every hostname that is linked to a service is that of the service.
abbrev pub IsOwned : Store → List ℕ → Type 0
IsOwned s root =
    All (λ (d : Domain). (id : ℕ) → d.service_id ≡ some id → host_in s root id ≡ some d.name)
      s.domains

-- The names are valid, and a service is found by its identifier.
pub record IsNamed (s : Store) : Type 0 where
  pub persons : All (λ (p : Person). is_valid_person_or_machine p.name ≡ true) s.persons
  pub machines : All (λ (m : Machine). is_valid_person_or_machine m.name ≡ true) s.machines
  pub services :
      All
        (λ (v : Service).
          (is_valid_service_name v.name ≡ true)
          × (find_row (λ (w : Service). w.id == v.id) s.services ≡ some v))
        s.services

abbrev of_machine : ℕ → List Service → List Service
of_machine id services = delete_rows (λ v. not (is_service_of id v)) services

has_service_lem :
    (id machine_id : ℕ) (services : List Service) (v : Service)
    → find_row (λ (w : Service). w.id == id) services ≡ some v
    → (v.machine_id == machine_id) ≡ true
    → has_service id (of_machine machine_id services) ≡ true
unfolding has_service delete_rows find_row
has_service_lem id machine_id [] v e h = absurd (cc)
has_service_lem id machine_id (w ∷ services) v e h =
    ground (arith, has_service_lem id machine_id services v)

-- A machine that gets a new name, and the services that are on it.
module _ (s : Store) (root next : List ℕ) (current : Machine) (person : Person) (h : IsNamed s)
    (valid : is_valid_person_or_machine next ≡ true)
    (is_current : find_row (has_id current.id) s.machines ≡ some current)
    (is_person : find_row (λ (p : Person). p.id == current.person_id) s.persons ≡ some person)
    (apart : bytes_eq current.name next ≡ false) where
  abbrev renamed : List Domain → Store
  renamed domains = record s {
    domains = domains;
    machines = update_row (has_id current.id) (with_name next) s.machines;
  }

  host_in_own :
      (domains : List Domain) (v : Service)
      → find_row (λ (w : Service). w.id == v.id) s.services ≡ some v
      → (v.machine_id == current.id) ≡ true
      → (host_in s root v.id ≡ some (flat_hostname person.name current.name v.name root))
        × (host_in (renamed domains) root v.id ≡ some (flat_hostname person.name next v.name root))
  unfolding host_in
  host_in_own domains v e own =
      let same : v.machine_id ≡ current.id = (==_iff v.machine_id current.id).0 own in
      let updated =
        find_row-update_row (has_id current.id) (with_name next) s.machines current is_current
          (ground arith) in
      (rw (e, same, is_current, is_person) refl, rw (e, same, updated, is_person) refl)

  host_in_other :
      (domains : List Domain) (id : ℕ) (v : Service)
      → find_row (λ (w : Service). w.id == id) s.services ≡ some v
      → (v.machine_id == current.id) ≡ false
      → host_in (renamed domains) root id ≡ host_in s root id
  unfolding host_in
  host_in_other domains id v e other =
      let kept =
        find_row_other (has_id current.id) (has_id v.machine_id) (with_name next)
          (λ m k. ground arith) s.machines in
      rw (e, kept) refl

  moved_apart :
      (service : List ℕ)
      → is_valid_service_name service ≡ true
      → bytes_eq
          (flat_hostname person.name next service root)
          (flat_hostname person.name current.name service root)
        ≡ false
  moved_apart service named =
      let p =
        All-find_row (λ (q : Person). is_valid_person_or_machine q.name ≡ true) _ s.persons person
          h.persons is_person in
      let c =
        All-find_row (λ (m : Machine). is_valid_person_or_machine m.name ≡ true) _ s.machines
          current h.machines is_current in
      elim (Bool-cases (
        bytes_eq (flat_hostname person.name next service root)
          (flat_hostname person.name current.name service root))) [
            | inr e ↦ e
            | inl e ↦
                let same =
                  (bytes_eq_iff (flat_hostname person.name next service root)
                      (flat_hostname person.name current.name service root)).0
                    e in
                let names =
                  flat_hostname_injective person.name next service root person.name current.name
                    service root p valid named p c named same in
                absurd (ground (arith, names.1, bytes_eq_iff current.name next))
          ]

  fact :
      (domains : List Domain) (v : Service)
      → find_row (λ (w : Service). w.id == v.id) s.services ≡ some v
      → is_valid_service_name v.name ≡ true
      → (v.machine_id == current.id) ≡ true
      → Moves (host_in s root) (host_in (renamed domains) root) person.name current.name next v
        × Stays (host_in s root) (host_in (renamed domains) root) person.name current.name next v
  fact domains v e named own =
      let p =
        All-find_row (λ (q : Person). is_valid_person_or_machine q.name ≡ true) _ s.persons person
          h.persons is_person in
      let c =
        All-find_row (λ (m : Machine). is_valid_person_or_machine m.name ≡ true) _ s.machines
          current h.machines is_current in
      let hosts = host_in_own domains v e own in
      let strips =
        strip_prefix-flat_hostname person.name current.name next v.name root p c valid named in
      let stays =
        strip_prefix_stays person.name current.name next v.name root p c valid named apart in
      let differ : bytes_eq (label person.name next ++ behind v.name root)
            (flat_hostname person.name current.name v.name root)
          ≡ false =
        subst (λ t. bytes_eq t (flat_hostname person.name current.name v.name root) ≡ false)
          strips.1 (moved_apart v.name named) in
      (
        (λ host f.
            let same : flat_hostname person.name current.name v.name root ≡ host =
              cc (hosts.0, f) in
            (
              behind v.name root,
              subst
                  (λ t. strip_prefix (label person.name current.name) t ≡ some (behind v.name root))
                  same strips.0,
              hosts.1 ∙ ap some strips.1,
              subst (λ t. bytes_eq (label person.name next ++ behind v.name root) t ≡ false) same
                  differ,
            )),
        (λ host f.
            let same : flat_hostname person.name next v.name root ≡ host = cc (hosts.1, f) in
            subst (λ t. strip_prefix (label person.name current.name) t ≡ none) same stays),
      )

  started :
      (domains : List Domain) (d : Domain)
      → ((id : ℕ) → d.service_id ≡ some id → host_in s root id ≡ some d.name)
      → IsMoving
          (host_in s root)
          (host_in (renamed domains) root)
          (of_machine current.id s.services)
          d
  unfolding host_in
  started domains d owned id f =
      elim (Option-cases (find_row (λ (w : Service). w.id == id) s.services)) [
        | inl e ↦ absurd (ground (arith, owned id f))
        | inr (v, e) ↦ elim (Bool-cases (v.machine_id == current.id)) [
          | inl own ↦ inr (owned id f, has_service_lem id current.id s.services v e own)
          | inr other ↦ inl (host_in_other domains id v e other ∙ owned id f)
        ]
      ]

  moved_all :
      (domains : List Domain)
      → domains
        ≡ move_services person.name current.name next (of_machine current.id s.services) s.domains
      → IsOwned s root
      → IsOwned (renamed domains) root
  unfolding has_service
  moved_all domains e owned =
      let old = host_in s root in
      let new = host_in (renamed domains) root in
      let facts =
        All-delete_rows _
          (λ v.
            Moves old new person.name current.name next v
            × Stays old new person.name current.name next v)
          (λ v. not (is_service_of current.id v))
          (λ v own named. fact domains v named.1 named.0 (ground (arith, own))) s.services
          h.services in
      let moved =
        move_services-IsMoving old new person.name current.name next
          (of_machine current.id s.services) s.domains facts
          (All_map _ (IsMoving old new (of_machine current.id s.services)) (started domains)
            s.domains owned) in
      let settled : All (IsMoving old new []) domains =
        subst (All (IsMoving old new [])) (sym e) moved in
      All_map (IsMoving old new []) _
        (λ d g id f. elim (g id f) [ inl n ↦ n | inr (o, there) ↦ absurd (ground (arith, there)) ])
        domains settled

-- A rename of a machine keeps every linked hostname that of its service, by the names as they are then.
-- The names in the database are valid before, and a service is found by its identifier.
pub rename_machine-IsOwned :
    (s : Store) (root : List ℕ) (machine_id : ℕ) (name : List ℕ)
    → IsNamed s
    → IsOwned s root
    → IsOwned (rename_machine s machine_id name).0 root
unfolding rename_machine
rename_machine-IsOwned s root machine_id name h owned =
    let next = to_ascii_lowercase name in
    let P : Store × Result StoreError Machine → Type 0 = λ r. IsOwned r.0 root in
    if_rule P (not (is_valid_person_or_machine next)) _ _ (λ _. owned)
      (λ valid. elim (Option-cases (find_row (has_id machine_id) s.machines)) [
        | inl e ↦ rw e owned
        | inr (current, e) ↦ rw e (
            if_rule P (bytes_eq current.name next) _ _ (λ _. owned)
              (λ apart.
                elim (Option-cases
                  (find_row (λ (p : Person). p.id == current.person_id) s.persons)) [
                    | inl f ↦ rw f owned
                    | inr (person, f) ↦ rw f (
                        if_rule P
                          (is_taken current.id current.person_id next current.key_id s.machines) _ _
                          (λ _. owned)
                          (λ _.
                            moved_all s root next current person h (ground (arith, valid))
                              (found_id s.machines machine_id current e) f apart _ refl owned))
                  ]))
      ])
