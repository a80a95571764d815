-- ===== src/Mux/Wire/KeyText/RoundTrip.antt =====
-- `FromStr` against `Display` of a key.
use Prim.Native.Nat.{bit_or}
use tunnel_weaver.Base.{
  ℕ, ◌+◌, ◌*◌, ◌/◌, ◌%◌, ◌≡◌, ◌<◌, refl, List, [], ◌∷◌, ◌++◌, some, Result, ok, err, length, All,
  IsByte, arith, ◌↔◌, agree_below, agree_below→eq, true, ◌>>=◌, Option-cases, Result-cases, inl,
  inr,
}
use tunnel_weaver.Mux.Wire.{KeyId, IsKeyId}
use tunnel_weaver.Mux.Wire.KeyText.{
  ParseKeyIdError, hex_digit, to_hex, fmt, nibble, split_once, from_pairs, list_beq, key_of,
  from_str, p256_name, ed25519_name,
}

byte_of_nibbles : (b : ℕ) → b < 256 → bit_or (b / 16 * 16) (b % 16) ≡ b
unfolding agree_below
byte_of_nibbles = agree_below→eq _ _ 256 refl

-- The byte that is put together from two nibbles.
nibbles_of_byte : (h l : ℕ) → h < 16 → l < 16 → bit_or (h * 16) l ≡ h * 16 + l
nibbles_of_byte h l hh hl = cc (byte_of_nibbles (h * 16 + l) (omega arith), high, low)
  where
    high : (h * 16 + l) / 16 ≡ h
    high = omega arith

    low : (h * 16 + l) % 16 ≡ l
    low = omega arith

nibble-hex_digit : (n : ℕ) → n < 16 → nibble (hex_digit n) ≡ ok n
unfolding nibble hex_digit
nibble-hex_digit n h = ground arith

hex_digit-nibble : (c n : ℕ) → nibble c ≡ ok n → (n < 16) × (hex_digit n ≡ c)
unfolding nibble hex_digit
hex_digit-nibble c n h = ground arith

from_pairs-to_hex : (bs : List ℕ) → All IsByte bs → from_pairs (to_hex bs) ≡ ok bs
unfolding from_pairs to_hex
from_pairs-to_hex [] h = refl
from_pairs-to_hex (b ∷ bs) h = rw (
  nibble-hex_digit (b / 16) (omega arith),
  nibble-hex_digit (b % 16) (omega arith),
  from_pairs-to_hex bs h.1,
  byte_of_nibbles b h.0,
)

length-to_hex : (bs : List ℕ) → length (to_hex bs) ≡ 2 * length bs
unfolding to_hex
length-to_hex [] = refl
length-to_hex (b ∷ bs) = omega (arith, length-to_hex bs)

-- The three results that a pair of digits is read through.
from_pairs_parts :
    (a b : Result ParseKeyIdError ℕ) (c : Result ParseKeyIdError (List ℕ)) (bs : List ℕ)
    → (a >>= λ h. b >>= λ l. c >>= λ bytes. ok (bit_or (h * 16) l ∷ bytes)) ≡ ok bs
    → (h : ℕ) × (l : ℕ) × (bytes : List ℕ) × (a ≡ ok h)
      × (b ≡ ok l)
      × (c ≡ ok bytes)
      × (bs ≡ bit_or (h * 16) l ∷ bytes)
from_pairs_parts (ok h) (ok l) (ok bytes) bs e = (h, l, bytes, refl, refl, refl, ground arith)
from_pairs_parts (err _) _ _ bs e = cc
from_pairs_parts (ok h) (err _) _ bs e = cc
from_pairs_parts (ok h) (ok l) (err _) bs e = cc

to_hex_pair :
    (h l : ℕ) (bytes : List ℕ)
    → h < 16
    → l < 16
    → (bit_or (h * 16) l < 256)
      × (to_hex (bit_or (h * 16) l ∷ bytes) ≡ hex_digit h ∷ hex_digit l ∷ to_hex bytes)
unfolding to_hex
to_hex_pair h l bytes hh hl = rw (nibbles_of_byte h l hh hl) (omega arith, cc (high, low))
  where
    high : (h * 16 + l) / 16 ≡ h
    high = omega arith

    low : (h * 16 + l) % 16 ≡ l
    low = omega arith

to_hex-from_pairs :
    (cs bs : List ℕ) → length cs % 2 ≡ 0 → from_pairs cs ≡ ok bs → All IsByte bs × (to_hex bs ≡ cs)
unfolding from_pairs
to_hex-from_pairs [] bs e h = let q : bs ≡ [] = ground arith in rw q (tt, unfold to_hex in refl)
to_hex-from_pairs (c ∷ []) bs e h = absurd (omega arith)
to_hex-from_pairs (hi ∷ lo ∷ rest) bs e h =
    let (n, m, bytes, a, b, c, d) =
      from_pairs_parts (nibble hi) (nibble lo) (from_pairs rest) bs h in
    let (hn, en) = hex_digit-nibble hi n a in
    let (hm, em) = hex_digit-nibble lo m b in
    let (all, eb) = to_hex-from_pairs rest bytes (omega arith) c in
    let (byte, pair) = to_hex_pair n m bytes hn hm in rw d ((byte, all), cc)

split_once_parts :
    (text before after : List ℕ)
    → split_once text ≡ some (before, after)
    → before ++ (b':' ∷ after) ≡ text
unfolding split_once
split_once_parts [] before after e = cc
split_once_parts (c ∷ cs) before after e = elim (Option-cases (split_once cs)) [
  | inl q ↦ ground arith
  | inr ((x, y), q) ↦ ground (arith, split_once_parts cs x y q)
]

list_beq-eq : (xs ys : List ℕ) → list_beq xs ys ≡ true → xs ≡ ys
unfolding list_beq
list_beq-eq [] [] h = refl
list_beq-eq [] (y ∷ ys) h = cc
list_beq-eq (x ∷ xs) [] h = cc
list_beq-eq (x ∷ xs) (y ∷ ys) h = ground (arith, list_beq-eq xs ys)

fmt-key_of :
    (algorithm bytes : List ℕ) (k : KeyId)
    → All IsByte bytes
    → key_of algorithm bytes ≡ ok k
    → IsKeyId k × (fmt k ≡ algorithm ++ (b':' ∷ to_hex bytes))
unfolding key_of fmt
fmt-key_of algorithm bytes k all e =
    ground (arith, list_beq-eq algorithm p256_name, list_beq-eq algorithm ed25519_name)

fmt-from_str : (text : List ℕ) (k : KeyId) → from_str text ≡ ok k → IsKeyId k × (fmt k ≡ text)
unfolding from_str
fmt-from_str text k e = elim (Option-cases (split_once text)) [
  | inl q ↦ ground arith
  | inr ((algorithm, hex), q) ↦ elim (Result-cases (from_pairs hex)) [
    | inl (bytes, r) ↦ ground (
      arith,
      fmt-key_of algorithm bytes k,
      to_hex-from_pairs hex bytes,
      split_once_parts text algorithm hex q,
    )
    | inr (x, r) ↦ ground arith
  ]
]

from_str-fmt : (k : KeyId) → IsKeyId k → from_str (fmt k) ≡ ok k
unfolding from_str fmt split_once key_of list_beq
from_str-fmt (KeyId.ed25519 bytes) h =
    ground (arith, from_pairs-to_hex bytes h.1, length-to_hex bytes)
from_str-fmt (KeyId.p256 bytes) h = ground (arith, from_pairs-to_hex bytes h.1, length-to_hex bytes)

-- A text is read as a key exactly if the key has the length of its kind, consists of bytes, and is
-- displayed as that text.
pub from_str-eq-ok_iff :
    (text : List ℕ) (k : KeyId) → (from_str text ≡ ok k) ↔ (IsKeyId k × (fmt k ≡ text))
from_str-eq-ok_iff text k = (fmt-from_str text k, λ p. rw (← p.1) (from_str-fmt k p.0))
