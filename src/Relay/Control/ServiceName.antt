-- ===== src/Relay/Control/ServiceName.antt =====
-- The form of a service name, read from left to right.
use tunnel_weaver.Base.{
  ℕ, ◌==◌, ◌≤◌, ◌&&◌, ◌||◌, if◌then◌else◌, Bool, true, false, List, [], ◌∷◌, ok, length, arith, ◌≡◌,
  ◌↔◌, refl,
}
use tunnel_weaver.Relay.Host.{every}
use tunnel_weaver.Relay.Names.{is_name_char}
use tunnel_weaver.Relay.Control.{
  ControlHead, split, is_run, every_run, is_valid_service_name, validate, register_head,
  protocol_version,
}

-- `after` says whether a letter or a digit stands in front: a dash needs one before and one behind.
unfoldable pub is_dashed : Bool → List ℕ → Bool
is_dashed after [] = after
is_dashed after (b ∷ bs) =
    if is_name_char b then is_dashed true bs else after && (b == b'-' && is_dashed false bs)

pub is_dashed-split :
    (bs : List ℕ)
    → (is_dashed true bs ≡ (every is_name_char (split b'-' bs).0 && every_run (split b'-' bs).1))
      × (is_dashed false bs ≡ (is_run (split b'-' bs).0 && every_run (split b'-' bs).1))
unfolding is_dashed split every every_run is_name_char
is_dashed-split [] = (refl, refl)
is_dashed-split (b ∷ bs) = ground (arith, is_dashed-split bs)

-- A service name is valid exactly if it has at most 31 bytes, all of them lowercase letters, digits or
-- dashes, begins and ends with a letter or a digit, and has no two dashes in a row.
pub is_valid_service_name_iff :
    (name : List ℕ)
    → (is_valid_service_name name ≡ true) ↔ ((length name ≤ 31) × (is_dashed false name ≡ true))
unfolding is_valid_service_name
is_valid_service_name_iff name = ground (arith, is_dashed-split name)

-- What the client sends, the relay accepts: a head that `register` builds passes `validate`.
pub validate-register_head :
    (service : List ℕ) (head : ControlHead)
    → register_head service ≡ ok head
    → (validate head ≡ ok tt) × (head ≡ ControlHead.register protocol_version service)
unfolding register_head validate
validate-register_head service head h = ground arith

pub every-is_dashed :
    (after : Bool) (bs : List ℕ)
    → is_dashed after bs ≡ true
    → every (λ b. is_name_char b || (b == b'-')) bs ≡ true
unfolding is_dashed every
every-is_dashed after [] h = refl
every-is_dashed after (b ∷ bs) h = ground (arith, every-is_dashed true bs, every-is_dashed false bs)
