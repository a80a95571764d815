-- ===== src/Mux/Wire/KeyText.antt =====
-- The text form of a key: `KeyId`'s `Display` and `FromStr` of crates/weaver-mux/src/wire.rs. A text
-- is the list of its UTF-8 bytes.
pub mod RoundTrip
use Prim.Native.Nat.{bit_or}
use tunnel_weaver.Base.{
  ℕ, ◌+◌, ◌-◌, ◌*◌, ◌/◌, ◌%◌, ltb, leb, ◌==◌, ◌&&◌, if◌then◌else◌, Bool, true, false, List, [], ◌∷◌,
  ◌++◌, Option, none, some, Result, ok, err, ◌>>=◌, length,
}
use tunnel_weaver.Mux.Wire.{KeyId}

pub data ParseKeyIdError : Type 0 where
  parse_key_id_error : ParseKeyIdError

abbrev pub p256_name : List ℕ
p256_name = b'p' ∷ b'2' ∷ b'5' ∷ b'6' ∷ []

abbrev pub ed25519_name : List ℕ
ed25519_name = b'e' ∷ b'd' ∷ b'2' ∷ b'5' ∷ b'5' ∷ b'1' ∷ b'9' ∷ []

-- One digit of `{:x}`.
unfoldable pub hex_digit : ℕ → ℕ
hex_digit n = if ltb n 10 then b'0' + n else b'a' + n - 10

-- `{b:02x}` of every byte.
unfoldable pub to_hex : List ℕ → List ℕ
to_hex [] = []
to_hex (b ∷ bs) = hex_digit (b / 16) ∷ hex_digit (b % 16) ∷ to_hex bs

unfoldable pub fmt : KeyId → List ℕ
fmt (KeyId.p256 bytes) = p256_name ++ (b':' ∷ to_hex bytes)
fmt (KeyId.ed25519 bytes) = ed25519_name ++ (b':' ∷ to_hex bytes)

unfoldable pub nibble : ℕ → Result ParseKeyIdError ℕ
nibble c =
    if leb b'0' c && leb c b'9'
    then ok (c - b'0')
    else if leb b'a' c && leb c b'f'
    then ok (c - b'a' + 10)
    else err parse_key_id_error

-- `str::split_once(':')`: what stands before the first colon, and behind it.
unfoldable pub split_once : List ℕ → Option (List ℕ × List ℕ)
split_once [] = none
split_once (c ∷ cs) =
    if c == b':'
    then some ([], cs)
    else elim (split_once cs) [ none ↦ none | some (before, after) ↦ some (c ∷ before, after) ]

-- The pairs of `as_chunks::<2>()`, each read as a byte; an odd end is left out.
unfoldable pub from_pairs : List ℕ → Result ParseKeyIdError (List ℕ)
from_pairs [] = ok []
from_pairs (c ∷ []) = ok []
from_pairs (hi ∷ lo ∷ rest) = do
  h ← nibble hi
  l ← nibble lo
  bytes ← from_pairs rest
  ok (bit_or (h * 16) l ∷ bytes)

unfoldable pub list_beq : List ℕ → List ℕ → Bool
list_beq [] [] = true
list_beq (x ∷ xs) (y ∷ ys) = x == y && list_beq xs ys
list_beq _ _ = false

-- `bytes.try_into()` at an array of `n` bytes.
abbrev pub to_array : ℕ → List ℕ → Result ParseKeyIdError (List ℕ)
to_array n bytes = if length bytes == n then ok bytes else err parse_key_id_error

-- The match on the algorithm, once the hex digits are read.
unfoldable pub key_of : List ℕ → List ℕ → Result ParseKeyIdError KeyId
key_of algorithm bytes =
    if list_beq algorithm p256_name
    then to_array 33 bytes >>= (λ a. ok (KeyId.p256 a))
    else if list_beq algorithm ed25519_name
    then to_array 32 bytes >>= (λ a. ok (KeyId.ed25519 a))
    else err parse_key_id_error

unfoldable pub from_str : List ℕ → Result ParseKeyIdError KeyId
from_str text = elim (split_once text) [
  | none ↦ err parse_key_id_error
  | some (algorithm, hex) ↦
      if length hex % 2 == 0
      then from_pairs hex >>= (λ bytes. key_of algorithm bytes)
      else err parse_key_id_error
]
