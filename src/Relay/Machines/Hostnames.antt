-- ===== src/Relay/Machines/Hostnames.antt =====
-- crates/weaver-server/src/store/mod.rs: how hostnames are linked to services, when a service is declared
-- and when its machine is renamed. Names are unique, so a row of `domains` is found by its name.
use tunnel_weaver.Base.{
  ℕ, ◌+◌, ◌==◌, ◌&&◌, not, if◌then◌else◌, Bool, false, List, [], ◌∷◌, ◌++◌, Option, none, some,
  is_some, Result, ok, err, bytes_eq, to_ascii_lowercase, find_row, update_row, delete_rows,
  starts_with, drop, length,
}
use tunnel_weaver.Relay.Names.{is_valid_person_or_machine}
use tunnel_weaver.Relay.Control.{is_valid_service_name}
use tunnel_weaver.Relay.Machines.{
  Person, Machine, Service, Domain, Store, StoreError, has_id, is_taken, is_service_of,
}

-- A service is declared: its row, and the link of its hostname.
abbrev pub service_row : ℕ → List ℕ → Service → Bool
service_row machine_id name v = v.machine_id == machine_id && bytes_eq v.name name

abbrev pub service_found :
    Store → Option Service → ℕ → List ℕ → ℕ → Store × Result StoreError Service
service_found s (some existing) machine_id name now = (s, ok existing)
service_found s none machine_id name now =
    let service : Service = record {
      id = s.next_id;
      machine_id = machine_id;
      name = name;
      created_at = now;
    } in
    if is_some (find_row (has_id machine_id) s.machines)
    then (record s { services = service ∷ s.services; next_id = s.next_id + 1 }, ok service)
    else (s, err StoreError.db)

unfoldable pub get_or_create_service : Store → ℕ → List ℕ → ℕ → Store × Result StoreError Service
get_or_create_service s machine_id name now =
    if not (is_valid_service_name name)
    then (s, err StoreError.invalid_name)
    else service_found s (find_row (service_row machine_id name) s.services) machine_id name now

abbrev pub is_named : List ℕ → Domain → Bool
is_named name domain = bytes_eq domain.name name

abbrev pub linked : ℕ → Domain → Domain
linked service_id domain = record domain { service_id = some service_id }

-- The row of the hostname is found or made, and linked.
unfoldable pub set_domain_service : Store → List ℕ → ℕ → Store
set_domain_service s domain_name service_id =
    let name = to_ascii_lowercase domain_name in
    let made : Domain = record { name = name; last_active_at = none; service_id = none } in
    let domains =
      if is_some (find_row (is_named name) s.domains) then s.domains else made ∷ s.domains in
    record s { domains = update_row (is_named name) (linked service_id) domains }

abbrev pub link_declared :
    Store × Result StoreError Service → List ℕ → Store × Result StoreError Service
link_declared (s, err e) hostname = (s, err e)
link_declared (s, ok service) hostname = (set_domain_service s hostname service.id, ok service)

unfoldable pub register_declared_service :
    Store → ℕ → List ℕ → List ℕ → ℕ → Store × Result StoreError Service
unfolding get_or_create_service set_domain_service
register_declared_service s machine_id hostname service now =
    link_declared (get_or_create_service s machine_id service now) hostname

unfoldable pub strip_prefix : List ℕ → List ℕ → Option (List ℕ)
strip_prefix prefix text =
    if starts_with prefix text then some (drop (length prefix) text) else none

abbrev pub label : List ℕ → List ℕ → List ℕ
label person machine = person ++ (b'-' ∷ machine ++ (b'-' ∷ []))

-- The row of the new hostname takes the link over, or is made, and the old row goes.
abbrev pub moved_row : ℕ → Domain → List ℕ → List Domain → List Domain
moved_row service_id old host domains =
    let taken = λ (d : Domain). record d {
      service_id = some service_id;
      last_active_at = old.last_active_at;
    } in
    let made : Domain = record {
      name = host;
      last_active_at = old.last_active_at;
      service_id = some service_id;
    } in
    let kept =
      if is_some (find_row (is_named host) domains)
      then update_row (is_named host) taken domains
      else made ∷ domains in
    delete_rows (is_named old.name) kept

abbrev pub move_domain : List ℕ → List ℕ → ℕ → Domain → Option (List ℕ) → List Domain → List Domain
move_domain person next service_id old none domains = domains
move_domain person next service_id old (some rest) domains =
    let host = label person next ++ rest in
    if bytes_eq host old.name then domains else moved_row service_id old host domains

unfoldable pub move_domains : List ℕ → List ℕ → List ℕ → ℕ → List Domain → List Domain → List Domain
unfolding strip_prefix
move_domains person current next service_id [] domains = domains
move_domains person current next service_id (old ∷ olds) domains =
    move_domains person current next service_id olds (
      move_domain person next service_id old (strip_prefix (label person current) old.name) domains)

abbrev pub links : ℕ → Domain → Bool
links service_id domain = elim domain.service_id [ none ↦ false | some id ↦ id == service_id ]

unfoldable pub move_services : List ℕ → List ℕ → List ℕ → List Service → List Domain → List Domain
unfolding move_domains
move_services person current next [] domains = domains
move_services person current next (service ∷ services) domains =
    move_services person current next services (
      move_domains person current next service.id
        (delete_rows (λ d. not (links service.id d)) domains) domains)

abbrev pub with_name : List ℕ → Machine → Machine
with_name name m = record m { name = name }

abbrev pub rename_owned :
    Store → Machine → Option Person → List ℕ → Store × Result StoreError Machine
rename_owned s current none next = (s, err StoreError.conflict)
rename_owned s current (some person) next =
    if is_taken current.id current.person_id next current.key_id s.machines
    then (s, err StoreError.db)
    else (
      record s {
        domains =
            move_services person.name current.name next
              (delete_rows (λ v. not (is_service_of current.id v)) s.services) s.domains;
        machines = update_row (has_id current.id) (with_name next) s.machines;
      },
      ok (with_name next current),
    )

abbrev pub rename_found : Store → Option Machine → List ℕ → Store × Result StoreError Machine
rename_found s none next = (s, err StoreError.conflict)
rename_found s (some current) next =
    if bytes_eq current.name next
    then (s, ok current)
    else rename_owned s current (find_row (λ (p : Person). p.id == current.person_id) s.persons)
        next

unfoldable pub rename_machine : Store → ℕ → List ℕ → Store × Result StoreError Machine
unfolding move_services
rename_machine s machine_id new_name =
    let next = to_ascii_lowercase new_name in
    if not (is_valid_person_or_machine next)
    then (s, err StoreError.invalid_name)
    else rename_found s (find_row (has_id machine_id) s.machines) next
