-- ===== src/Abuse/Altcha/Events/SingleUse.antt =====
-- A proof that was accepted, and whatever happens to the tables later.
use tunnel_weaver.Base.{ℕ, ◌≤◌, true, List, [], ◌∷◌, arith, ◌≡◌, sat_mul63}
use tunnel_weaver.Abuse.Altcha.{Libraries}
use tunnel_weaver.Abuse.Altcha.Consume.{Tables}
use tunnel_weaver.Abuse.Altcha.Consume.Spent.{is_kept}
use tunnel_weaver.Abuse.Altcha.Events.{Event, time, InOrder}

module _ {Json : Type 0} where
  pub InOrder-le :
      (from : ℕ) (events : List (Event Json)) (until : ℕ) → InOrder from events until → from ≤ until
  InOrder-le from [] until h = h
  InOrder-le from (event ∷ events) until h =
      omega (arith, h.1, InOrder-le (time event) events until h.2)

module _ {Json : Type 0} (lib : Libraries Json) (public_key nonce : List ℕ) (expires : ℕ) where
  abbrev Kept : Tables → Type 0
  Kept t = is_kept public_key nonce (sat_mul63 expires 1000) t.proofs ≡ true
