-- ===== src/Relay/Machines/Keys.antt =====
-- Which machine a key is, after it was replaced or revoked.
use tunnel_weaver.Base.{
  ℕ, ◌≤◌, not, true, Option, none, some, ok, arith, ◌≡◌, ◌≢◌, refl, subst, inl, inr, Option-cases,
  find_row, find_row_only, find_row-none, find_row-some, find_row-update_row, update_row, selected,
  selected_one, selected_updated, selected-delete_rows,
}
use tunnel_weaver.Mux.Wire.{KeyId}
use tunnel_weaver.Relay.Registry.Keys.{key_beq_iff}
use tunnel_weaver.Relay.Machines.{
  Machine, Store, has_id, has_key, with_key, replace_machine_key, revoke_machine,
}
use tunnel_weaver.Relay.Machines.Log.{IsLogged}
use tunnel_weaver.Relay.Machines.Commands.{found_id, IsLogged-replace_machine_key}

-- `machine_by_key`, without the person, whom the foreign key of the machine ensures.
unfoldable pub machine_by_key : Store → KeyId → Option Machine
machine_by_key s key = find_row (has_key key) s.machines

-- What a replacement of a key comes to.
pub record IsReplaced (s : Store) (machine_id : ℕ) (key : KeyId) (after : Store) (m : Machine)
    : Type 0 where
  pub current : Machine
  pub is_current : find_row (has_id machine_id) s.machines ≡ some current
  pub is_same : m ≡ with_key key current
  pub is_machines : after.machines ≡ update_row (has_id current.id) (with_key key) s.machines

IsReplaced_lem :
    (s : Store) (machine_id : ℕ) (key : KeyId) (now : ℕ) (m : Machine)
    → (replace_machine_key s machine_id key now).1 ≡ ok m
    → IsReplaced s machine_id key (replace_machine_key s machine_id key now).0 m
unfolding replace_machine_key
IsReplaced_lem s machine_id key now m h =
    elim (Option-cases (find_row (has_id machine_id) s.machines)) [
      | inl e ↦ absurd (ground arith)
      | inr (current, e) ↦ record {
        current = current;
        is_current = e;
        is_same = ground arith;
        is_machines = ground arith;
      }
    ]

-- A machine whose key is replaced by another one is found by the new key, unchanged but for it, and by the
-- old key no machine is found.
pub replace_machine_key-machine_by_key :
    (s : Store) (machine_id : ℕ) (key : KeyId) (now : ℕ) (m current : Machine)
    → IsLogged s
    → (replace_machine_key s machine_id key now).1 ≡ ok m
    → find_row (has_id machine_id) s.machines ≡ some current
    → current.key_id ≢ key
    → (machine_by_key (replace_machine_key s machine_id key now).0 key
        ≡ some (with_key key current))
      × (machine_by_key (replace_machine_key s machine_id key now).0 current.key_id ≡ none)
unfolding machine_by_key
replace_machine_key-machine_by_key s machine_id key now m current h done is_current apart =
    let after = (replace_machine_key s machine_id key now).0 in
    let r = IsReplaced_lem s machine_id key now m done in
    let same : r.current ≡ current = ground (arith, r.is_current, is_current) in
    let machines : after.machines ≡ update_row (has_id current.id) (with_key key) s.machines =
      subst (λ c. after.machines ≡ update_row (has_id c.id) (with_key key) s.machines) same
        r.is_machines in
    let by_id = found_id s.machines machine_id current is_current in
    let updated =
      find_row-update_row (has_id current.id) (with_key key) s.machines current by_id
        (ground arith) in
    let unique : selected (has_key key) (update_row (has_id current.id) (with_key key) s.machines)
        ≤ 1 =
      subst (λ ms. selected (has_key key) ms ≤ 1) machines
        ((IsLogged-replace_machine_key s machine_id now key h).one_key key) in
    let old = has_key current.key_id in
    let own : old current ≡ true = (key_beq_iff current.key_id current.key_id).1 refl in
    let others =
      selected_one old (λ c. not (has_id current.id c)) (has_id current.id) s.machines current by_id
        own (h.one_key current.key_id) in
    let count =
      selected_updated (has_id current.id) old (with_key key) s.machines current by_id
        (h.one_id current.id) in
    let nobody : selected old (update_row (has_id current.id) (with_key key) s.machines) ≡ 0 =
      ground (arith, others, count, key_beq_iff key current.key_id) in
    rw machines (
      find_row_only (has_key key) (has_id current.id) _ (with_key key current) updated
          ((key_beq_iff key key).1 refl) unique,
      find_row-none old _ nobody,
    )

-- A key that is revoked is no machine's.
pub revoke_machine-machine_by_key :
    (s : Store) (key : KeyId) (now : ℕ)
    → IsLogged s
    → machine_by_key (revoke_machine s key now).0 key ≡ none
unfolding machine_by_key revoke_machine
revoke_machine-machine_by_key s key now h =
    elim (Option-cases (find_row (has_key key) s.machines)) [
      | inl e ↦ rw e e
      | inr (found, e) ↦
          let its = (find_row-some (has_key key) s.machines found e).0 in
          let one =
            selected_one (has_key key) (λ m. not (has_id found.id m)) (has_key key) s.machines found
              e its (h.one_key key) in
          let gone = selected-delete_rows (has_id found.id) (has_key key) s.machines in
          rw e (find_row-none (has_key key) _ (ground (arith, one, gone)))
    ]
