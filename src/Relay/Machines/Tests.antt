-- ===== src/Relay/Machines/Tests.antt =====
-- The theorems on machines, at a concrete person with a laptop.
use tunnel_weaver.Base.{
  ℕ, ◌≡◌, refl, List, [], ◌∷◌, none, some, ascii, replicate, arith, bytes_eq, selected, find_row,
  update_row, subst, to_ascii_lowercase, to_lower, is_upper, is_digit,
}
use tunnel_weaver.Mux.Wire.{KeyId}
use tunnel_weaver.Relay.Host.{every}
use tunnel_weaver.Relay.Names.{is_valid_person_or_machine, is_name_char}
use tunnel_weaver.Relay.Machines.{
  Machine, Store, create_person, create_machine, replace_machine_key, with_key,
}
use tunnel_weaver.Relay.Machines.Log.{IsLogged}
use tunnel_weaver.Relay.Machines.Commands.{Command, run, run_all, run_all-IsLogged}
use tunnel_weaver.Relay.Machines.Hostnames.{
  register_declared_service, get_or_create_service, set_domain_service, rename_machine,
}
use tunnel_weaver.Relay.Machines.Owned.{IsOwned, IsNamed, host_in, rename_machine-IsOwned}
use tunnel_weaver.Relay.Control.{is_valid_service_name, split, every_run}
use tunnel_weaver.Relay.Registry.{flat_hostname}
use tunnel_weaver.Relay.Machines.Keys.{machine_by_key, replace_machine_key-machine_by_key}

abbrev old_key : KeyId
old_key = KeyId.ed25519 (replicate 32 7)

abbrev new_key : KeyId
new_key = KeyId.ed25519 (replicate 32 8)

abbrev empty : Store
empty = record {
  persons = [];
  machines = [];
  key_log = [];
  services = [];
  domains = [];
  altcha_clients = [];
  next_id = 1;
}

empty-IsLogged : IsLogged empty
unfolding selected
empty-IsLogged = record {
  one_id = λ id. omega arith;
  one_key = λ key. omega arith;
  one_name = λ person name. omega arith;
  fresh = λ id le. refl;
  logged = λ id key. refl;
}

abbrev paired : List (Command × ℕ)
paired = (Command.join 5 (ascii "Poc"), 10) ∷ (Command.pair 1 (ascii "laptop") old_key, 20) ∷ []

abbrev stored : Store
stored = run_all empty paired

stored-IsLogged : IsLogged stored
stored-IsLogged = run_all-IsLogged paired empty empty-IsLogged

abbrev commands : List (Command × ℕ)
commands =
    (Command.declare 2 (ascii "poc-laptop-web.example.com") (ascii "web"), 30)
    ∷ (Command.rename 2 (ascii "desk"), 40)
    ∷ (Command.rekey 2 new_key, 50)
    ∷ (Command.sweep 60, 60)
    ∷ (Command.revoke new_key, 70)
    ∷ []

run_all-IsLogged_example : IsLogged (run_all stored commands)
run_all-IsLogged_example = run_all-IsLogged commands stored stored-IsLogged

abbrev laptop : Machine
laptop = record { id = 2; person_id = 1; name = ascii "laptop"; created_at = 20; key_id = old_key }

replace_machine_key-machine_by_key_example :
    (machine_by_key (replace_machine_key stored 2 new_key 50).0 new_key
      ≡ some (with_key new_key laptop))
    × (machine_by_key (replace_machine_key stored 2 new_key 50).0 old_key ≡ none)
unfolding run_all run create_person create_machine replace_machine_key find_row bytes_eq
    is_valid_person_or_machine is_name_char every to_ascii_lowercase to_lower is_upper is_digit
replace_machine_key-machine_by_key_example =
    replace_machine_key-machine_by_key stored 2 new_key 50 (with_key new_key laptop) laptop
      stored-IsLogged refl refl (ground arith)

-- The laptop declares a service.
abbrev web : List ℕ
web = ascii "poc-laptop-web.example.com"

abbrev declared : Store
declared = run stored (Command.declare 2 web (ascii "web"), 30)

declared-IsNamed : IsNamed declared
unfolding run_all run create_person create_machine register_declared_service get_or_create_service
    set_domain_service find_row bytes_eq is_valid_person_or_machine is_name_char every
    to_ascii_lowercase to_lower is_upper is_digit is_valid_service_name split every_run
declared-IsNamed = record {
  persons = (refl, tt);
  machines = (refl, tt);
  services = ((refl, refl), tt);
}

declared-IsOwned : IsOwned declared (ascii "example.com")
unfolding run_all run create_person create_machine register_declared_service get_or_create_service
    set_domain_service find_row update_row bytes_eq is_valid_person_or_machine is_name_char every
    to_ascii_lowercase to_lower is_upper is_digit is_valid_service_name split every_run host_in
    flat_hostname
declared-IsOwned = (
  (λ id f.
      let same : ◌≡◌ {A = ℕ} 3 id = cc f in
      subst (λ i. host_in declared (ascii "example.com") i ≡ some web) same refl),
  tt,
)

rename_machine-IsOwned_example :
    IsOwned (rename_machine declared 2 (ascii "Desk")).0 (ascii "example.com")
rename_machine-IsOwned_example =
    rename_machine-IsOwned declared (ascii "example.com") 2 (ascii "Desk") declared-IsNamed
      declared-IsOwned
