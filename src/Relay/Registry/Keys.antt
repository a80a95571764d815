-- ===== src/Relay/Registry/Keys.antt =====
-- Keys of machines and sets of hostnames.
use tunnel_weaver.Base.{
  ℕ, ◌||◌, ◌≡◌, ◌↔◌, if◌then◌else◌, Bool, true, false, List, [], ◌∷◌, bytes_eq, bytes_eq_iff, Eq,
  arith,
}
use tunnel_weaver.Mux.Wire.{KeyId}

abbrev pub key_beq : KeyId → KeyId → Bool
key_beq (KeyId.ed25519 a) (KeyId.ed25519 b) = bytes_eq a b
key_beq (KeyId.p256 a) (KeyId.p256 b) = bytes_eq a b
key_beq _ _ = false

pub key_beq_iff : (a b : KeyId) → (key_beq a b ≡ true) ↔ (a ≡ b)
key_beq_iff (KeyId.ed25519 a) (KeyId.ed25519 b) = ground (arith, bytes_eq_iff a b)
key_beq_iff (KeyId.ed25519 a) (KeyId.p256 b) = ground arith
key_beq_iff (KeyId.p256 a) (KeyId.ed25519 b) = ground arith
key_beq_iff (KeyId.p256 a) (KeyId.p256 b) = ground (arith, bytes_eq_iff a b)

instance abbrev pub key_key : Eq KeyId
key_key = record { beq = key_beq; beq_iff = key_beq_iff }

unfoldable pub contains : List ℕ → List (List ℕ) → Bool
contains h [] = false
contains h (g ∷ gs) = bytes_eq g h || contains h gs

-- `HashSet::insert`, and `remove`.
unfoldable pub add : List ℕ → List (List ℕ) → List (List ℕ)
unfolding contains
add h gs = if contains h gs then gs else h ∷ gs

unfoldable pub without : List ℕ → List (List ℕ) → List (List ℕ)
without h [] = []
without h (g ∷ gs) = let rest = without h gs in if bytes_eq g h then rest else g ∷ rest

pub contains-add :
    (h g : List ℕ) (gs : List (List ℕ)) → contains g (add h gs) ≡ (bytes_eq h g || contains g gs)
unfolding contains add
contains-add h g gs = ground (arith, bytes_eq_iff h g)

pub contains-without :
    (h g : List ℕ) (gs : List (List ℕ))
    → contains g (without h gs) ≡ (if bytes_eq h g then false else contains g gs)
unfolding contains without
contains-without h g [] = ground arith
contains-without h g (f ∷ gs) =
    ground (arith, bytes_eq_iff f h, bytes_eq_iff f g, bytes_eq_iff h g, contains-without h g gs)
