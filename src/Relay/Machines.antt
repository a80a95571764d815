-- ===== src/Relay/Machines.antt =====
-- crates/weaver-server/src/store/mod.rs: the persons, machines and services of the relay's database, the
-- log of the machines' keys, and the hostnames that are linked to a service. A key stands for its
-- canonical text, `now` for the clock, and `next_id` for the next identifier of the database. A write
-- takes effect as a whole or not at all. The account of a person is taken to exist.
pub mod Hostnames
pub mod Log
pub mod Commands
pub mod Keys
pub mod Moved
pub mod Strip
pub mod Owned
pub mod Tests
use tunnel_weaver.Base.{
  ℕ, ◌+◌, ◌==◌, ltb, ◌&&◌, ◌||◌, not, if◌then◌else◌, Bool, false, List, [], ◌∷◌, Option, none, some,
  is_some, Result, ok, err, ascii, bytes_eq, to_ascii_lowercase, find_row, update_row, update_rows,
  delete_rows,
}
use tunnel_weaver.Mux.Wire.{KeyId}
use tunnel_weaver.Relay.Registry.Keys.{key_beq}
use tunnel_weaver.Abuse.Altcha.Clients.{AltchaClientRow, unlink_services}
use tunnel_weaver.Relay.Names.{is_valid_person_or_machine}

-- Rows of `person`, `machine`, `machine_key_log`, `service` and `domains`; the rows of `altcha_client`
-- are those of Abuse/Altcha/Clients. An identifier that nothing reads is left out.
pub record Person : Type 0 where
  pub id : ℕ
  pub name : List ℕ
  pub account_id : ℕ
  pub created_at : ℕ

pub record Machine : Type 0 where
  pub id : ℕ
  pub person_id : ℕ
  pub name : List ℕ
  pub created_at : ℕ
  pub key_id : KeyId

pub record KeyLog : Type 0 where
  pub key_id : KeyId
  pub machine_id : ℕ
  pub person_id : ℕ
  pub added_at : ℕ
  pub retired_at : Option ℕ
  pub retired_reason : List ℕ

pub record Service : Type 0 where
  pub id : ℕ
  pub machine_id : ℕ
  pub name : List ℕ
  pub created_at : ℕ

pub record Domain : Type 0 where
  pub name : List ℕ
  pub last_active_at : Option ℕ
  pub service_id : Option ℕ

-- The tables of the database behind `Store`.
pub record Store : Type 0 where
  pub persons : List Person
  pub machines : List Machine
  pub key_log : List KeyLog
  pub services : List Service
  pub domains : List Domain
  pub altcha_clients : List AltchaClientRow
  pub next_id : ℕ

-- The errors that these operations give.
pub data StoreError : Type 0 where
  invalid_name conflict db : StoreError

abbrev pub has_id : ℕ → Machine → Bool
has_id id m = m.id == id

abbrev pub has_key : KeyId → Machine → Bool
has_key key m = key_beq m.key_id key

abbrev pub has_name : ℕ → List ℕ → Machine → Bool
has_name person_id name m = m.person_id == person_id && bytes_eq m.name name

unfoldable pub open_key_log : Machine → ℕ → List KeyLog → List KeyLog
open_key_log machine now log =
    record {
      key_id = machine.key_id;
      machine_id = machine.id;
      person_id = machine.person_id;
      added_at = now;
      retired_at = none;
      retired_reason = [];
    }
    ∷ log

abbrev pub is_open : ℕ → KeyId → KeyLog → Bool
is_open machine_id key row =
    row.machine_id == machine_id && (key_beq row.key_id key && not (is_some row.retired_at))

abbrev pub retired : List ℕ → ℕ → KeyLog → KeyLog
retired reason now row = record row { retired_at = some now; retired_reason = reason }

unfoldable pub close_key_log : ℕ → KeyId → List ℕ → ℕ → List KeyLog → List KeyLog
close_key_log machine_id key reason now log =
    update_rows (is_open machine_id key) (retired reason now) log

-- The unique names and accounts of persons.
unfoldable pub create_person : Store → ℕ → List ℕ → ℕ → Store × Result StoreError Person
create_person s account_id name now =
    let lower = to_ascii_lowercase name in
    if not (is_valid_person_or_machine lower)
    then (s, err StoreError.invalid_name)
    else if is_some
        (find_row (λ (p : Person). bytes_eq p.name lower || (p.account_id == account_id)) s.persons)
    then (s, err StoreError.db)
    else let person : Person = record {
      id = s.next_id;
      name = lower;
      account_id = account_id;
      created_at = now;
    } in
      (record s { persons = person ∷ s.persons; next_id = s.next_id + 1 }, ok person)

-- What the unique indexes on machines refuse: a name of the person, or a key, of another machine.
abbrev pub is_taken : ℕ → ℕ → List ℕ → KeyId → List Machine → Bool
is_taken id person_id name key machines =
    is_some
      (find_row (λ m. not (has_id id m) && (has_name person_id name m || has_key key m)) machines)

abbrev pub insert_machine : Store → Machine → ℕ → Store
insert_machine s machine now = record s {
  machines = machine ∷ s.machines;
  key_log = open_key_log machine now s.key_log;
  next_id = s.next_id + 1;
}

unfoldable pub create_machine : Store → ℕ → List ℕ → KeyId → ℕ → Store × Result StoreError Machine
unfolding open_key_log
create_machine s person_id name key now =
    let lower = to_ascii_lowercase name in
    let created : Machine = record {
      id = s.next_id;
      person_id = person_id;
      name = lower;
      created_at = now;
      key_id = key;
    } in
    if not (is_valid_person_or_machine lower)
    then (s, err StoreError.invalid_name)
    else if is_taken s.next_id person_id lower key s.machines
    then (s, err StoreError.db)
    else if not (is_some (find_row (λ (p : Person). p.id == person_id) s.persons))
    then (s, err StoreError.db)
    else (insert_machine s created now, ok created)

abbrev pub with_key : KeyId → Machine → Machine
with_key key m = record m { key_id = key }

abbrev pub move_key : Store → Machine → KeyId → ℕ → Store
move_key s current key now = record s {
  machines = update_row (has_id current.id) (with_key key) s.machines;
  key_log =
      open_key_log (with_key key current) now
        (close_key_log current.id current.key_id (ascii "replaced") now s.key_log);
}

abbrev pub replace_found : Store → Option Machine → KeyId → ℕ → Store × Result StoreError Machine
replace_found s none key now = (s, err StoreError.conflict)
replace_found s (some current) key now =
    if is_taken current.id current.person_id current.name key s.machines
    then (s, err StoreError.db)
    else (move_key s current key now, ok (with_key key current))

unfoldable pub replace_machine_key : Store → ℕ → KeyId → ℕ → Store × Result StoreError Machine
unfolding open_key_log close_key_log
replace_machine_key s machine_id key now =
    replace_found s (find_row (has_id machine_id) s.machines) key now

abbrev pub is_service_of : ℕ → Service → Bool
is_service_of machine_id service = service.machine_id == machine_id

abbrev pub is_service_id_of : ℕ → List Service → ℕ → Bool
is_service_id_of machine_id services id =
    is_some (find_row (λ (v : Service). v.id == id && is_service_of machine_id v) services)

abbrev pub is_linked_to : ℕ → List Service → Domain → Bool
is_linked_to machine_id services domain = elim domain.service_id [
  | none ↦ false
  | some id ↦ is_service_id_of machine_id services id
]

abbrev pub unlink : Domain → Domain
unlink domain = record domain { service_id = none }

-- The deletion of a machine takes its services, and unlinks their hostnames and their clients of the proof of
-- work.
abbrev pub delete_machine : Store → Machine → ℕ → Store
delete_machine s found now = record s {
  machines = delete_rows (has_id found.id) s.machines;
  services = delete_rows (is_service_of found.id) s.services;
  domains = update_rows (is_linked_to found.id s.services) unlink s.domains;
  altcha_clients = unlink_services (is_service_id_of found.id s.services) s.altcha_clients;
  key_log = close_key_log found.id found.key_id (ascii "revoked") now s.key_log;
}

abbrev pub revoke_found : Store → Option Machine → ℕ → Store × Option Machine
revoke_found s none now = (s, none)
revoke_found s (some found) now = (delete_machine s found now, some found)

unfoldable pub revoke_machine : Store → KeyId → ℕ → Store × Option Machine
unfolding close_key_log unlink_services
revoke_machine s key now = revoke_found s (find_row (has_key key) s.machines) now

abbrev pub is_before : Option ℕ → ℕ → Bool
is_before none cutoff = false
is_before (some at) cutoff = ltb at cutoff

unfoldable pub sweep_machine_key_log : Store → ℕ → Store
sweep_machine_key_log s cutoff = record s {
  key_log = delete_rows (λ (row : KeyLog). is_before row.retired_at cutoff) s.key_log;
}
