-- ===== src/Abuse/Altcha/Clients.antt =====
-- The clients of crates/weaver-server/src/store/altcha.rs. The numbers of a row are 32-bit in the table.
pub mod Internal
pub mod Retired
use tunnel_weaver.Base.{
  find_row, update_row, update_rows, false, ℕ, ◌&&◌, not, if◌then◌else◌, Bool, List, ◌∷◌, Option,
  none, some, Result, ok, err, bytes_eq, is_some, max,
}

pub record NewAltchaClient : Type 0 where
  pub public_key : List ℕ
  pub secret : List ℕ
  pub algorithm : List ℕ
  pub cost : ℕ
  pub key_length : ℕ
  pub key_prefix : List ℕ
  pub ttl_secs : ℕ
  pub service_id : Option ℕ

-- A row of `altcha_client`.
pub record AltchaClientRow : Type 0 where
  pub client : NewAltchaClient
  pub created_at : ℕ
  pub rotated_at : ℕ
  pub revoked_at : Option ℕ

abbrev pub is_live : AltchaClientRow → Bool
is_live row = not (is_some row.revoked_at)

abbrev pub is_internal : AltchaClientRow → Bool
is_internal row = not (is_some row.client.service_id)

abbrev pub has_key : List ℕ → AltchaClientRow → Bool
has_key public_key row = bytes_eq row.client.public_key public_key

unfoldable pub altcha_client_live : List AltchaClientRow → List ℕ → Option AltchaClientRow
unfolding find_row
altcha_client_live rows public_key = find_row (λ row. has_key public_key row && is_live row) rows

unfoldable pub altcha_internal_client : List AltchaClientRow → Option AltchaClientRow
unfolding find_row
altcha_internal_client rows = find_row (λ row. is_internal row && is_live row) rows

-- What a write may fail with: the conflict that the code reports, or the unique key of the table.
pub data CreateError : Type 0 where
  conflict database : CreateError

unfoldable pub altcha_client_create :
    List AltchaClientRow
    → NewAltchaClient
    → ℕ
    → List AltchaClientRow × Result CreateError AltchaClientRow
unfolding altcha_internal_client find_row
altcha_client_create rows new now_ms =
    if not (is_some new.service_id) && is_some (altcha_internal_client rows)
    then (rows, err CreateError.conflict)
    else if is_some (find_row (has_key new.public_key) rows)
    then (rows, err CreateError.database)
    else let row : AltchaClientRow = record {
      client = new;
      created_at = now_ms;
      rotated_at = now_ms;
      revoked_at = none;
    } in
      (row ∷ rows, ok row)

abbrev pub rotated : List ℕ → ℕ → AltchaClientRow → AltchaClientRow
rotated new_secret now_ms row = record row {
  client = record row.client { secret = new_secret };
  rotated_at = now_ms;
}

abbrev pub revoked : ℕ → AltchaClientRow → AltchaClientRow
revoked now_ms row = record row { revoked_at = some now_ms }

abbrev pub rotated_row : List ℕ → ℕ → Option AltchaClientRow → Option AltchaClientRow
rotated_row new_secret now_ms none = none
rotated_row new_secret now_ms (some row) = some (rotated new_secret now_ms row)

unfoldable pub altcha_client_rotate :
    List AltchaClientRow → List ℕ → List ℕ → ℕ → List AltchaClientRow × Option AltchaClientRow
unfolding find_row update_row
altcha_client_rotate rows public_key new_secret now_ms = (
  update_row (has_key public_key) (rotated new_secret now_ms) rows,
  rotated_row new_secret now_ms (find_row (has_key public_key) rows),
)

unfoldable pub altcha_client_revoke :
    List AltchaClientRow → List ℕ → ℕ → List AltchaClientRow × Bool
unfolding altcha_client_live update_row
altcha_client_revoke rows public_key now_ms = (
  update_row (λ row. has_key public_key row && is_live row) (revoked now_ms) rows,
  is_some (altcha_client_live rows public_key),
)

abbrev pub is_client_of : (ℕ → Bool) → AltchaClientRow → Bool
is_client_of is_deleted row = elim row.client.service_id [ none ↦ false | some id ↦ is_deleted id ]

abbrev pub unlinked : AltchaClientRow → AltchaClientRow
unlinked row = record row { client = record row.client { service_id = none } }

-- The foreign key of the table, where services are deleted: their clients stay, with no service.
unfoldable pub unlink_services : (ℕ → Bool) → List AltchaClientRow → List AltchaClientRow
unfolding update_rows
unlink_services is_deleted rows = update_rows (is_client_of is_deleted) unlinked rows

-- `AltchaClient` of crates/weaver-abuse/src/altcha/store.rs.
pub record AltchaClient : Type 0 where
  pub public_key : List ℕ
  pub secret : List ℕ
  pub algorithm : List ℕ
  pub cost : ℕ
  pub key_length : ℕ
  pub key_prefix : List ℕ
  pub ttl_secs : ℕ

abbrev pub model_to_client : AltchaClientRow → AltchaClient
model_to_client row = record {
  public_key = row.client.public_key;
  secret = row.client.secret;
  algorithm = row.client.algorithm;
  cost = max row.client.cost 1;
  key_length = max row.client.key_length 1;
  key_prefix = row.client.key_prefix;
  ttl_secs = row.client.ttl_secs;
}
