-- ===== src/Abuse/Scanner/Decode.antt =====
-- crates/weaver-abuse/src/scanner.rs, `percent_decode_lossy`, with the replacement of ill-formed UTF-8
-- by the standard library's `from_utf8_lossy`.
pub mod Bytes
use tunnel_weaver.Base.{
  ℕ, zero, suc, ◌+◌, ◌-◌, ◌*◌, ◌==◌, ltb, leb, ◌&&◌, ◌||◌, if◌then◌else◌, Bool, true, false, List,
  [], ◌∷◌, ◌++◌, Option, none, some, is_digit,
}

unfoldable pub hex : ℕ → Option ℕ
unfolding is_digit
hex b =
    if is_digit b
    then some (b - b'0')
    else if leb b'a' b && leb b b'f'
    then some (b - b'a' + 10)
    else if leb b'A' b && leb b b'F'
    then some (b - b'A' + 10)
    else none

-- The byte of an escape, from its two digits.
abbrev pub escape : Option ℕ → Option ℕ → Option ℕ
escape (some h) (some l) = some (h * 16 + l)
escape _ _ = none

-- The escape that the bytes behind a `%` begin with.
unfoldable pub escape_at : List ℕ → Option ℕ
unfolding hex
escape_at (b ∷ c ∷ rest) = escape (hex b) (hex c)
escape_at _ = none

-- The bytes of the decoded text; `skip` are the digits of an escape that was decoded.
unfoldable pub percent_decode : ℕ → List ℕ → List ℕ
unfolding escape_at
percent_decode skip [] = []
percent_decode (suc skip) (b ∷ bs) = percent_decode skip bs
percent_decode zero (b ∷ bs) = elim (if b == b'%' then escape_at bs else none) [
  | none ↦ b ∷ percent_decode 0 bs
  | some byte ↦ byte ∷ percent_decode 2 bs
]

-- A character that is being read: its bytes so far, how many are missing, and the range of the next.
pub record Partial : Type 0 where
  pub held : List ℕ
  pub missing : ℕ
  pub low : ℕ
  pub high : ℕ

abbrev pub idle : Partial
idle = record { held = []; missing = 0; low = 0; high = 0 }

abbrev pub replacement : List ℕ
replacement = 0xef ∷ 0xbf ∷ 0xbd ∷ []

abbrev pub within : ℕ → ℕ → ℕ → Bool
within low high b = leb low b && leb b high

-- The first byte of a character.
unfoldable pub lead : ℕ → List ℕ × Partial
lead b =
    if ltb b 0x80
    then (b ∷ [], idle)
    else if within 0xc2 0xdf b
    then ([], record { held = b ∷ []; missing = 1; low = 0x80; high = 0xbf })
    else if within 0xe0 0xef b
    then (
      [],
      record {
        held = b ∷ [];
        missing = 2;
        low = if b == 0xe0 then 0xa0 else 0x80;
        high = if b == 0xed then 0x9f else 0xbf;
      },
    )
    else if within 0xf0 0xf4 b
    then (
      [],
      record {
        held = b ∷ [];
        missing = 3;
        low = if b == 0xf0 then 0x90 else 0x80;
        high = if b == 0xf4 then 0x8f else 0xbf;
      },
    )
    else (replacement, idle)

-- One byte: what it settles, and what is left open.
unfoldable pub feed : Partial → ℕ → List ℕ × Partial
unfolding lead
feed p b =
    if p.missing == 0
    then lead b
    else if within p.low p.high b
    then (if p.missing == 1 then (p.held ++ (b ∷ []), idle) else (
      [],
      record { held = p.held ++ (b ∷ []); missing = p.missing - 1; low = 0x80; high = 0xbf },
    ))
    else (let (out, q) = lead b in (replacement ++ out, q))

unfoldable pub lossy_from : Partial → List ℕ → List ℕ
unfolding feed
lossy_from p [] = if p.missing == 0 then [] else replacement
lossy_from p (b ∷ bs) = let (out, q) = feed p b in out ++ lossy_from q bs

-- `String::from_utf8_lossy`.
unfoldable pub from_utf8_lossy : List ℕ → List ℕ
unfolding lossy_from
from_utf8_lossy bytes = lossy_from idle bytes

unfoldable pub percent_decode_lossy : List ℕ → List ℕ
unfolding percent_decode from_utf8_lossy
percent_decode_lossy input = from_utf8_lossy (percent_decode 0 input)

unfoldable pub has_percent : List ℕ → Bool
has_percent [] = false
has_percent (b ∷ bs) = b == b'%' || has_percent bs

-- Decoded only where there is an escape, and once more where that gave one.
unfoldable pub decode_path : List ℕ → List ℕ
unfolding percent_decode_lossy has_percent
decode_path path =
    if has_percent path
    then (let once = percent_decode_lossy path in
        if has_percent once then percent_decode_lossy once else once)
    else path
