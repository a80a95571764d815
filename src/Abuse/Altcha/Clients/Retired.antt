-- ===== src/Abuse/Altcha/Clients/Retired.antt =====
-- A client whose row is there and is revoked.
use tunnel_weaver.Base.{
  selected, selected-none, selected-update_row, selected_same, selected_less, selected_part,
  selected-update_rows_same, find_row-none, ℕ, ◌≤◌, ◌&&◌, Bool, true, List, none, arith, ◌≡◌, refl,
  bytes_eq_iff,
}
use tunnel_weaver.Abuse.Altcha.Clients.{
  NewAltchaClient, AltchaClientRow, is_live, has_key, rotated, revoked, altcha_client_live,
  altcha_client_create, altcha_client_rotate, altcha_client_revoke, is_client_of, unlinked,
  unlink_services,
}
use tunnel_weaver.Abuse.Altcha.Clients.Internal.{IsRegistry}

abbrev pub is_live_key : List ℕ → AltchaClientRow → Bool
is_live_key public_key row = has_key public_key row && is_live row

pub record IsRetired (public_key : List ℕ) (rows : List AltchaClientRow) : Type 0 where
  pub is_there : 1 ≤ selected (has_key public_key) rows
  pub is_revoked : selected (is_live_key public_key) rows ≡ 0

-- No query for a live client finds a retired one.
pub IsRetired-altcha_client_live :
    (rows : List AltchaClientRow) (public_key : List ℕ)
    → IsRetired public_key rows
    → altcha_client_live rows public_key ≡ none
unfolding altcha_client_live
IsRetired-altcha_client_live rows public_key h =
    find_row-none (is_live_key public_key) rows h.is_revoked

pub IsRetired-revoked :
    (rows : List AltchaClientRow) (public_key : List ℕ) (now_ms : ℕ)
    → IsRegistry rows
    → (altcha_client_revoke rows public_key now_ms).1 ≡ true
    → IsRetired public_key (altcha_client_revoke rows public_key now_ms).0
unfolding altcha_client_revoke altcha_client_live
IsRetired-revoked rows public_key now_ms h e =
    let p = is_live_key public_key in
    let part = selected_part (has_key public_key) p (λ row e. ground arith) rows in
    record {
      is_there = ground (
        arith,
        find_row-none p rows,
        part,
        selected_same p (has_key public_key) (revoked now_ms) (λ row e. refl) rows,
      );
      is_revoked = omega (
        arith,
        part,
        h.one_key public_key,
        selected_less p (revoked now_ms) (λ row. ground arith) rows,
      );
    }

module _ (public_key : List ℕ) where
  pub IsRetired-create :
      (rows : List AltchaClientRow) (new : NewAltchaClient) (now_ms : ℕ)
      → IsRetired public_key rows
      → IsRetired public_key (altcha_client_create rows new now_ms).0
  unfolding altcha_client_create selected
  IsRetired-create rows new now_ms h =
      let free = selected-none (has_key new.public_key) rows in
      let there = h.is_there in
      record {
        is_there = ground arith;
        is_revoked =
            ground (arith, h.is_revoked, h.is_there, free, bytes_eq_iff new.public_key public_key);
      }

  pub IsRetired-rotate :
      (rows : List AltchaClientRow) (key secret : List ℕ) (now_ms : ℕ)
      → IsRetired public_key rows
      → IsRetired public_key (altcha_client_rotate rows key secret now_ms).0
  unfolding altcha_client_rotate
  IsRetired-rotate rows key secret now_ms h =
      let f = rotated secret now_ms in
      record {
        is_there = omega (
          arith,
          h.is_there,
          selected_same (has_key key) (has_key public_key) f (λ row e. refl) rows,
        );
        is_revoked = omega (
          arith,
          h.is_revoked,
          selected_same (has_key key) (is_live_key public_key) f (λ row e. refl) rows,
        );
      }

  pub IsRetired-revoke :
      (rows : List AltchaClientRow) (key : List ℕ) (now_ms : ℕ)
      → IsRetired public_key rows
      → IsRetired public_key (altcha_client_revoke rows key now_ms).0
  unfolding altcha_client_revoke
  IsRetired-revoke rows key now_ms h =
      let f = revoked now_ms in
      let p = is_live_key key in
      record {
        is_there =
            omega (arith, h.is_there, selected_same p (has_key public_key) f (λ row e. refl) rows);
        is_revoked = omega (
          arith,
          h.is_revoked,
          selected-update_row p (is_live_key public_key) f (λ row e. ground arith) rows,
        );
      }

  pub IsRetired-unlink_services :
      (rows : List AltchaClientRow) (is_deleted : ℕ → Bool)
      → IsRetired public_key rows
      → IsRetired public_key (unlink_services is_deleted rows)
  unfolding unlink_services
  IsRetired-unlink_services rows is_deleted h =
      let same =
        λ (q : AltchaClientRow → Bool) (e : (row : AltchaClientRow) → q (unlinked row) ≡ q row).
          selected-update_rows_same (is_client_of is_deleted) q unlinked e rows in
      record {
        is_there = omega (arith, h.is_there, same (has_key public_key) (λ row. refl));
        is_revoked = omega (arith, h.is_revoked, same (is_live_key public_key) (λ row. refl));
      }
