-- ===== src/Relay/Machines/Commands.antt =====
-- Whatever is done to persons, machines and services, one command after another.
use tunnel_weaver.Base.{
  ℕ, ◌≤◌, ◌==◌, ◌&&◌, not, if_rule, List, [], ◌∷◌, some, is_some, Result, arith, ◌≡◌, refl, sym,
  ◌∙◌, subst, inl, inr, Option-cases, bytes_eq, find_row, find_row-some, selected-delete_rows,
  selected_agree, to_ascii_lowercase, ==_iff,
}
use tunnel_weaver.Mux.Wire.{KeyId}
use tunnel_weaver.Relay.Names.{is_valid_person_or_machine}
use tunnel_weaver.Relay.Machines.Hostnames.{
  rename_machine, get_or_create_service, set_domain_service, register_declared_service,
}
use tunnel_weaver.Relay.Machines.{
  Person, Machine, KeyLog, Store, StoreError, has_id, has_key, is_open, is_taken, is_before,
  create_person, create_machine, replace_machine_key, revoke_machine, sweep_machine_key_log,
}
use tunnel_weaver.Relay.Machines.Log.{
  IsLogged, IsLogged-insert, IsLogged-delete, IsLogged-rename, IsLogged-move_key,
}

pub data Command : Type 0 where
  join : (account_id : ℕ) (name : List ℕ) → Command
  pair : (person_id : ℕ) (name : List ℕ) (key : KeyId) → Command
  rekey : (machine_id : ℕ) (key : KeyId) → Command
  revoke : (key : KeyId) → Command
  rename : (machine_id : ℕ) (name : List ℕ) → Command
  declare : (machine_id : ℕ) (hostname service : List ℕ) → Command
  sweep : (cutoff : ℕ) → Command

-- A command, at a time of the clock.
unfoldable pub run : Store → Command × ℕ → Store
unfolding create_person create_machine replace_machine_key revoke_machine rename_machine
    register_declared_service sweep_machine_key_log
run s (Command.join account_id name, now) = (create_person s account_id name now).0
run s (Command.pair person_id name key, now) = (create_machine s person_id name key now).0
run s (Command.rekey machine_id key, now) = (replace_machine_key s machine_id key now).0
run s (Command.revoke key, now) = (revoke_machine s key now).0
run s (Command.rename machine_id name, now) = (rename_machine s machine_id name).0
run s (Command.declare machine_id hostname service, now) =
    (register_declared_service s machine_id hostname service now).0
run s (Command.sweep cutoff, now) = sweep_machine_key_log s cutoff

unfoldable pub run_all : Store → List (Command × ℕ) → Store
unfolding run
run_all s [] = s
run_all s (command ∷ commands) = run_all (run s command) commands

-- More identifiers are in use, and nothing else is changed.
IsLogged_lem :
    (s s' : Store)
    → IsLogged s
    → s'.machines ≡ s.machines
    → s'.key_log ≡ s.key_log
    → s.next_id ≤ s'.next_id
    → IsLogged s'
IsLogged_lem s s' h machines log more = record {
  one_id = λ id. rw machines (h.one_id id);
  one_key = λ key. rw machines (h.one_key key);
  one_name = λ person name. rw machines (h.one_name person name);
  fresh = λ id le. rw machines (h.fresh id (omega (arith, le, more)));
  logged = λ id key. rw (machines, log) (h.logged id key);
}

IsLogged-create_person :
    (s : Store) (account_id now : ℕ) (name : List ℕ)
    → IsLogged s
    → IsLogged (create_person s account_id name now).0
unfolding create_person
IsLogged-create_person s account_id now name h =
    IsLogged_lem s _ h (ground arith) (ground arith) (ground arith)

IsLogged-create_machine :
    (s : Store) (person_id now : ℕ) (name : List ℕ) (key : KeyId)
    → IsLogged s
    → IsLogged (create_machine s person_id name key now).0
unfolding create_machine
IsLogged-create_machine s person_id now name key h =
    let lower = to_ascii_lowercase name in
    let P : Store × Result StoreError Machine → Type 0 = λ r. IsLogged r.0 in
    let created : Machine = record {
      id = s.next_id;
      person_id = person_id;
      name = lower;
      created_at = now;
      key_id = key;
    } in
    if_rule P (not (is_valid_person_or_machine lower)) _ _ (λ _. h)
      (λ _.
        if_rule P (is_taken s.next_id person_id lower key s.machines) _ _ (λ _. h)
          (λ free.
            if_rule P (not (is_some (find_row (λ (p : Person). p.id == person_id) s.persons))) _ _
              (λ _. h) (λ _. IsLogged-insert s created now h refl free)))

-- The row that is found by an identifier has it.
pub found_id :
    (machines : List Machine) (id : ℕ) (m : Machine)
    → find_row (has_id id) machines ≡ some m
    → find_row (has_id m.id) machines ≡ some m
found_id machines id m e =
    let same : m.id ≡ id = (==_iff m.id id).0 (find_row-some (has_id id) machines m e).0 in
    subst (λ i. find_row (has_id i) machines ≡ some m) (sym same) e

pub IsLogged-replace_machine_key :
    (s : Store) (machine_id now : ℕ) (key : KeyId)
    → IsLogged s
    → IsLogged (replace_machine_key s machine_id key now).0
unfolding replace_machine_key
IsLogged-replace_machine_key s machine_id now key h =
    elim (Option-cases (find_row (has_id machine_id) s.machines)) [
      | inl e ↦ rw e h
      | inr (current, e) ↦ rw e (
          if_rule (λ (r : Store × Result StoreError Machine). IsLogged r.0)
            (is_taken current.id current.person_id current.name key s.machines) _ _ (λ _. h)
            (IsLogged-move_key s current key now h (found_id s.machines machine_id current e)))
    ]

IsLogged-revoke_machine :
    (s : Store) (key : KeyId) (now : ℕ) → IsLogged s → IsLogged (revoke_machine s key now).0
unfolding revoke_machine
IsLogged-revoke_machine s key now h = elim (Option-cases (find_row (has_key key) s.machines)) [
  | inl e ↦ rw e h
  | inr (found, e) ↦ rw e (IsLogged-delete s found now h (has_key key) e)
]

IsLogged-rename_machine :
    (s : Store) (machine_id : ℕ) (name : List ℕ)
    → IsLogged s
    → IsLogged (rename_machine s machine_id name).0
unfolding rename_machine
IsLogged-rename_machine s machine_id name h =
    let next = to_ascii_lowercase name in
    let P : Store × Result StoreError Machine → Type 0 = λ r. IsLogged r.0 in
    if_rule P (not (is_valid_person_or_machine next)) _ _ (λ _. h)
      (λ _. elim (Option-cases (find_row (has_id machine_id) s.machines)) [
        | inl e ↦ rw e h
        | inr (current, e) ↦ rw e (
            if_rule P (bytes_eq current.name next) _ _ (λ _. h)
              (λ _.
                elim (Option-cases
                  (find_row (λ (p : Person). p.id == current.person_id) s.persons)) [
                    | inl f ↦ rw f h
                    | inr (person, f) ↦ rw f (
                        if_rule P
                          (is_taken current.id current.person_id next current.key_id s.machines) _ _
                          (λ _. h)
                          (IsLogged-rename s current next _ h
                            (found_id s.machines machine_id current e)))
                  ]))
      ])

IsLogged-register_declared_service :
    (s : Store) (machine_id now : ℕ) (hostname service : List ℕ)
    → IsLogged s
    → IsLogged (register_declared_service s machine_id hostname service now).0
unfolding register_declared_service get_or_create_service set_domain_service
IsLogged-register_declared_service s machine_id now hostname service h =
    IsLogged_lem s _ h (ground arith) (ground arith) (ground arith)

-- A row that is open was not retired at any time.
open_stays :
    (row : KeyLog) (id : ℕ) (key : KeyId) (cutoff : ℕ)
    → (is_open id key row && not (is_before row.retired_at cutoff)) ≡ is_open id key row
open_stays row id key cutoff = ground arith

IsLogged-sweep : (s : Store) (cutoff : ℕ) → IsLogged s → IsLogged (sweep_machine_key_log s cutoff)
unfolding sweep_machine_key_log
IsLogged-sweep s cutoff h =
    let old = λ (row : KeyLog). is_before row.retired_at cutoff in
    record {
      one_id = h.one_id;
      one_key = h.one_key;
      one_name = h.one_name;
      fresh = h.fresh;
      logged = λ id key.
          selected-delete_rows old (is_open id key) s.key_log
          ∙ selected_agree (λ row. is_open id key row && not (old row)) (is_open id key)
              (λ row. open_stays row id key cutoff) s.key_log
          ∙ h.logged id key;
    }

run-IsLogged :
    (command : Command) (now : ℕ) (s : Store) → IsLogged s → IsLogged (run s (command, now))
unfolding run
run-IsLogged (Command.join account_id name) now s h = IsLogged-create_person s account_id now name h
run-IsLogged (Command.pair person_id name key) now s h =
    IsLogged-create_machine s person_id now name key h
run-IsLogged (Command.rekey machine_id key) now s h =
    IsLogged-replace_machine_key s machine_id now key h
run-IsLogged (Command.revoke key) now s h = IsLogged-revoke_machine s key now h
run-IsLogged (Command.rename machine_id name) now s h = IsLogged-rename_machine s machine_id name h
run-IsLogged (Command.declare machine_id hostname service) now s h =
    IsLogged-register_declared_service s machine_id now hostname service h
run-IsLogged (Command.sweep cutoff) now s h = IsLogged-sweep s cutoff h

-- Through any commands on persons, machines and services, no two machines share an identifier, a key, or
-- a name of one person, and the open rows of the key log are those of the keys that machines hold: one of
-- each machine for its key, and none of a machine that is gone or of a key that was replaced or revoked.
pub run_all-IsLogged :
    (commands : List (Command × ℕ)) (s : Store) → IsLogged s → IsLogged (run_all s commands)
unfolding run_all
run_all-IsLogged [] s h = h
run_all-IsLogged ((command, now) ∷ commands) s h =
    run_all-IsLogged commands (run s (command, now)) (run-IsLogged command now s h)
