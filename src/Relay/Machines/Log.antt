-- ===== src/Relay/Machines/Log.antt =====
-- The log of keys, row by row against the machines that hold them.
use tunnel_weaver.Base.{
  ℕ, ◌==◌, ◌≤◌, ◌&&◌, ◌||◌, not, Bool, true, false, List, some, arith, ◌≡◌, refl, sym, ◌∙◌, inl,
  inr, Bool-cases, ascii, bytes_eq_iff, find_row, update_row, selected, selected-none,
  selected_part, selected_same, selected-update_rows, selected-delete_rows, selected_agree,
  selected_one, selected_no, selected_either, selected_updated,
}
use tunnel_weaver.Mux.Wire.{KeyId}
use tunnel_weaver.Relay.Registry.Keys.{key_beq, key_beq_iff}
use tunnel_weaver.Relay.Machines.Hostnames.{with_name}
use tunnel_weaver.Relay.Machines.{
  Domain, Machine, Store, has_id, has_key, has_name, open_key_log, is_open, retired, close_key_log,
  is_taken, insert_machine, with_key, move_key, delete_machine,
}

abbrev pub holds : ℕ → KeyId → Machine → Bool
holds id key m = has_id id m && has_key key m

-- The unique indexes, the identifiers to come, and the open rows of the log: as many of a machine and a
-- key as there are machines that hold the key.
pub record IsLogged (s : Store) : Type 0 where
  pub one_id : (id : ℕ) → selected (has_id id) s.machines ≤ 1
  pub one_key : (key : KeyId) → selected (has_key key) s.machines ≤ 1
  pub one_name : (person : ℕ) (name : List ℕ) → selected (has_name person name) s.machines ≤ 1
  pub fresh : (id : ℕ) → s.next_id ≤ id → selected (has_id id) s.machines ≡ 0
  pub logged :
      (id : ℕ) (key : KeyId)
      → selected (is_open id key) s.key_log ≡ selected (holds id key) s.machines

-- A key and a name that the indexes do not refuse are of no other machine.
is_taken_lem :
    (id person : ℕ) (name : List ℕ) (key : KeyId) (machines : List Machine)
    → is_taken id person name key machines ≡ false
    → (selected (has_key key) machines ≤ selected (has_id id) machines)
      × (selected (has_name person name) machines ≤ selected (has_id id) machines)
is_taken_lem id person name key machines h =
    let others = λ (m : Machine). not (has_id id m) && (has_name person name m || has_key key m) in
    let none_other = selected-none others machines h in
    (
      omega (
        arith,
        none_other,
        selected_either (has_key key) (has_id id) others (λ m e. ground arith) machines,
      ),
      omega (
        arith,
        none_other,
        selected_either (has_name person name) (has_id id) others (λ m e. ground arith) machines,
      ),
    )

pub IsLogged-insert :
    (s : Store) (m : Machine) (now : ℕ)
    → IsLogged s
    → m.id ≡ s.next_id
    → is_taken s.next_id m.person_id m.name m.key_id s.machines ≡ false
    → IsLogged (insert_machine s m now)
unfolding open_key_log selected
IsLogged-insert s m now h new free =
    let apart = is_taken_lem s.next_id m.person_id m.name m.key_id s.machines free in
    let unused = h.fresh s.next_id (omega arith) in
    record {
      one_id = λ id. ground (arith, h.one_id id, h.fresh id);
      one_key = λ key. ground (arith, h.one_key key, apart, unused, key_beq_iff m.key_id key);
      one_name = λ person name.
          ground (arith, h.one_name person name, apart, unused, bytes_eq_iff m.name name);
      fresh = λ id le. ground (arith, h.fresh id);
      logged = λ id key. ground (arith, h.logged id key);
    }

-- The log and the machines, counted for one machine and one key, once its own rows are closed.
closed_lem :
    (s : Store) (current : Machine) (reason : List ℕ) (now id : ℕ) (key : KeyId)
    → IsLogged s
    → (r : Machine → Bool) → find_row r s.machines ≡ some current
    → selected (is_open id key) (close_key_log current.id current.key_id reason now s.key_log)
      ≡ selected (λ m. holds id key m && not (has_id current.id m)) s.machines
unfolding close_key_log
closed_lem s current reason now id key h r found =
    let own = is_open current.id current.key_id in
    let close =
      selected-update_rows own (is_open id key) (retired reason now) (λ row. ground arith)
        s.key_log in
    let machines = s.machines in
    elim (Bool-cases (id == current.id)) [
      | inr other ↦
          let rows =
            selected_agree (λ row. is_open id key row && not (own row)) (is_open id key)
              (λ row. ground arith) s.key_log in
          let holders =
            selected_agree (λ m. holds id key m && not (has_id current.id m)) (holds id key)
              (λ m. ground arith) machines in
          close ∙ rows ∙ h.logged id key ∙ sym holders
      | inl same ↦
          let gone =
            selected_no (λ m. holds id key m && not (has_id current.id m)) (λ m. ground arith)
              machines in
          let one =
            selected_one (has_id id) (has_key key) r machines current found (ground arith)
              (h.one_id id) in
          elim (Bool-cases (key_beq current.key_id key)) [
            | inl its ↦
                let rows =
                  selected_no (λ row. is_open id key row && not (own row))
                    (λ row. ground (
                      arith,
                      key_beq_iff row.key_id key,
                      key_beq_iff row.key_id current.key_id,
                      key_beq_iff current.key_id key,
                    ))
                    s.key_log in
                close ∙ rows ∙ sym gone
            | inr not_its ↦
                let rows =
                  selected_agree (λ row. is_open id key row && not (own row)) (is_open id key)
                    (λ row. ground (
                      arith,
                      key_beq_iff row.key_id key,
                      key_beq_iff row.key_id current.key_id,
                      key_beq_iff current.key_id key,
                    ))
                    s.key_log in
                close ∙ rows ∙ h.logged id key ∙ one ∙ rw not_its (sym gone)
          ]
    ]

pub IsLogged-delete :
    (s : Store) (found : Machine) (now : ℕ)
    → IsLogged s
    → (r : Machine → Bool) → find_row r s.machines ≡ some found
    → IsLogged (delete_machine s found now)
IsLogged-delete s found now h r is_found =
    let gone = has_id found.id in
    let fewer = λ (q : Machine → Bool). selected-delete_rows gone q s.machines ∙ refl in
    let part = λ (q : Machine → Bool).
      selected_part q (λ m. q m && not (gone m)) (λ m e. ground arith) s.machines in
    record {
      one_id = λ id. omega (arith, h.one_id id, fewer (has_id id), part (has_id id));
      one_key = λ key. omega (arith, h.one_key key, fewer (has_key key), part (has_key key));
      one_name = λ person name. omega (
        arith,
        h.one_name person name,
        fewer (has_name person name),
        part (has_name person name),
      );
      fresh = λ id le. omega (arith, h.fresh id le, fewer (has_id id), part (has_id id));
      logged = λ id key.
          closed_lem s found (ascii "revoked") now id key h r is_found ∙ sym (fewer (holds id key));
    }

pub IsLogged-rename :
    (s : Store) (current : Machine) (next : List ℕ) (domains : List Domain)
    → IsLogged s
    → find_row (has_id current.id) s.machines ≡ some current
    → is_taken current.id current.person_id next current.key_id s.machines ≡ false
    → IsLogged (record s {
      domains = domains;
      machines = update_row (has_id current.id) (with_name next) s.machines;
    })
IsLogged-rename s current next domains h is_found free =
    let p = has_id current.id in
    let f = with_name next in
    let machines = s.machines in
    let same = λ (q : Machine → Bool) (e : (m : Machine) → p m ≡ true → q (f m) ≡ q m).
      selected_same p q f e machines in
    let taken = λ (m : Machine).
      not (p m) && (has_name current.person_id next m || has_key current.key_id m) in
    let none_other = selected-none taken machines free in
    record {
      one_id = λ id. omega (arith, h.one_id id, same (has_id id) (λ m e. refl));
      one_key = λ key. omega (arith, h.one_key key, same (has_key key) (λ m e. refl));
      one_name = λ person name.
          let q = has_name person name in
          let others = λ (m : Machine). q m && not (p m) in
          let count = selected_updated p q f machines current is_found (h.one_id current.id) in
          let part = selected_part q others (λ m e. ground arith) machines in
          elim (Bool-cases (q (f current))) [
            | inl its ↦
                let few =
                  selected_part taken others (λ m e. ground (arith, bytes_eq_iff next name))
                    machines in
                omega (arith, none_other, few, rw its at count)
            | inr not_its ↦ omega (arith, rw not_its at count, part, h.one_name person name)
          ];
      fresh = λ id le. omega (arith, h.fresh id le, same (has_id id) (λ m e. refl));
      logged = λ id key. h.logged id key ∙ sym (same (holds id key) (λ m e. refl));
    }

-- The machine's new key: one machine at most has it, and the log has a row for it.
pub IsLogged-move_key :
    (s : Store) (current : Machine) (key : KeyId) (now : ℕ)
    → IsLogged s
    → find_row (has_id current.id) s.machines ≡ some current
    → is_taken current.id current.person_id current.name key s.machines ≡ false
    → IsLogged (move_key s current key now)
unfolding open_key_log selected
IsLogged-move_key s current key now h is_found free =
    let p = has_id current.id in
    let f = with_key key in
    let machines = s.machines in
    let same = λ (q : Machine → Bool) (e : (m : Machine) → p m ≡ true → q (f m) ≡ q m).
      selected_same p q f e machines in
    let taken =
      λ (m : Machine). not (p m) && (has_name current.person_id current.name m || has_key key m) in
    let none_other = selected-none taken machines free in
    let count = λ (q : Machine → Bool).
      selected_updated p q f machines current is_found (h.one_id current.id) in
    record {
      one_id = λ id. omega (arith, h.one_id id, same (has_id id) (λ m e. refl));
      one_key = λ k.
          let q = has_key k in
          let others = λ (m : Machine). q m && not (p m) in
          let part = selected_part q others (λ m e. ground arith) machines in
          elim (Bool-cases (key_beq key k)) [
            | inl its ↦
                let few =
                  selected_part taken others (λ m e. ground (arith, key_beq_iff key k)) machines in
                omega (arith, none_other, few, rw its at (count q))
            | inr not_its ↦ omega (arith, rw not_its at (count q), part, h.one_key k)
          ];
      one_name = λ person name.
          omega (arith, h.one_name person name, same (has_name person name) (λ m e. refl));
      fresh = λ id le. omega (arith, h.fresh id le, same (has_id id) (λ m e. refl));
      logged = λ id k.
          let closed = closed_lem s current (ascii "replaced") now id k h p is_found in
          ground (arith, closed, count (holds id k));
    }
