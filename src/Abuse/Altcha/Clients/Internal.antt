-- ===== src/Abuse/Altcha/Clients/Internal.antt =====
-- How many rows of clients a query may select.
use tunnel_weaver.Base.{
  selected, selected-none, selected-update_row, ℕ, ◌≤◌, ◌&&◌, Bool, false, List, arith, ◌≡◌,
  bytes_eq_iff,
}
use tunnel_weaver.Abuse.Altcha.Clients.{
  NewAltchaClient, AltchaClientRow, is_live, is_internal, has_key, rotated, revoked,
  altcha_internal_client, altcha_client_create, altcha_client_rotate, altcha_client_revoke,
}

abbrev pub is_current : AltchaClientRow → Bool
is_current row = is_internal row && is_live row

-- One row of a public key at most, and one live client of the relay's own.
pub record IsRegistry (rows : List AltchaClientRow) : Type 0 where
  pub one_key : (public_key : List ℕ) → selected (has_key public_key) rows ≤ 1
  pub one_internal : selected is_current rows ≤ 1

pub IsRegistry-create :
    (rows : List AltchaClientRow) (new : NewAltchaClient) (now_ms : ℕ)
    → IsRegistry rows
    → IsRegistry (altcha_client_create rows new now_ms).0
unfolding altcha_client_create altcha_internal_client selected
IsRegistry-create rows new now_ms h = record {
  one_key = λ key.
      ground
        (arith, h.one_key key, selected-none (has_key key) rows, bytes_eq_iff new.public_key key);
  one_internal = ground (arith, h.one_internal, selected-none is_current rows);
}

pub IsRegistry-rotate :
    (rows : List AltchaClientRow) (public_key secret : List ℕ) (now_ms : ℕ)
    → IsRegistry rows
    → IsRegistry (altcha_client_rotate rows public_key secret now_ms).0
unfolding altcha_client_rotate
IsRegistry-rotate rows public_key secret now_ms h =
    let kept =
      λ (q : AltchaClientRow → Bool)
          (same : (row : AltchaClientRow) → q row ≡ false → q (rotated secret now_ms row) ≡ false).
        selected-update_row (has_key public_key) q (rotated secret now_ms) same rows in
    record {
      one_key = λ key. omega (arith, h.one_key key, kept (has_key key) (λ row e. e));
      one_internal = omega (arith, h.one_internal, kept is_current (λ row e. e));
    }

pub IsRegistry-revoke :
    (rows : List AltchaClientRow) (public_key : List ℕ) (now_ms : ℕ)
    → IsRegistry rows
    → IsRegistry (altcha_client_revoke rows public_key now_ms).0
unfolding altcha_client_revoke
IsRegistry-revoke rows public_key now_ms h =
    let kept =
      λ (q : AltchaClientRow → Bool)
          (same : (row : AltchaClientRow) → q row ≡ false → q (revoked now_ms row) ≡ false).
        selected-update_row (λ row. has_key public_key row && is_live row) q (revoked now_ms) same
          rows in
    record {
      one_key = λ key. omega (arith, h.one_key key, kept (has_key key) (λ row e. e));
      one_internal = omega (arith, h.one_internal, kept is_current (λ row e. ground arith));
    }
