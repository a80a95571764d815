-- ===== src/Abuse/Surface.antt =====
-- crates/weaver-abuse/src/surface.rs: where a request arrived, the routes that are never inspected, and
-- the path that a log line shows. A method is its token, and a path its UTF-8 bytes.
pub mod Bounded
use tunnel_weaver.Base.{
  ℕ, zero, suc, ◌==◌, leb, ◌||◌, ◌&&◌, if◌then◌else◌, not, Bool, true, false, List, [], ◌∷◌, ◌++◌,
  Option, none, some, length, take, drop, bytes_eq, starts_with, ascii,
}

pub data Scheme : Type 0 where
  http https : Scheme

pub data Host : Type 0 where
  admin tunnel_root tunneled cleartext : Host

pub record Surface : Type 0 where
  pub scheme : Scheme
  pub host : Host

abbrev pub Method : Type 0
Method = List ℕ

abbrev pub method_get : Method
method_get = ascii "GET"

abbrev pub method_trace : Method
method_trace = ascii "TRACE"

-- The match on the host role of the TLS edge.
abbrev pub serves : Host → List ℕ → Bool
serves Host.admin path = bytes_eq path (ascii "/healthz")
serves Host.tunnel_root path =
    bytes_eq path (ascii "/healthz") || bytes_eq path (ascii "/_weaver/connect")
serves _ path = false

abbrev pub serves_on : Scheme → Host → List ℕ → Bool
serves_on Scheme.http host path = false
serves_on Scheme.https host path = serves host path

unfoldable pub is_exempt : Surface → Method → List ℕ → Bool
is_exempt surface method path =
    if not (bytes_eq method method_get)
    then false
    else if starts_with (ascii "/.well-known/acme-challenge/") path
    then true
    else serves_on surface.scheme surface.host path

-- `split(['?', '#']).next()`.
unfoldable pub before_query : List ℕ → List ℕ
before_query [] = []
before_query (c ∷ cs) = if c == b'?' || c == b'#' then [] else c ∷ before_query cs

abbrev pub max_logged_path : ℕ
max_logged_path = 128

-- A UTF-8 continuation byte.
abbrev pub is_continuation : ℕ → Bool
is_continuation b = leb 0x80 b && leb b 0xbf

-- `is_char_boundary`: the end, or in front of a byte that does not continue a character.
abbrev pub is_char_boundary : List ℕ → ℕ → Bool
is_char_boundary [] zero = true
is_char_boundary (b ∷ bs) zero = not (is_continuation b)
is_char_boundary [] (suc n) = false
is_char_boundary (b ∷ bs) (suc n) = is_char_boundary bs n

-- The loop of `bounded_path`, down from `end`.
unfoldable pub boundary_below : List ℕ → ℕ → ℕ
boundary_below path zero = zero
boundary_below path (suc n) =
    let lower = boundary_below path n in if is_char_boundary path (suc n) then suc n else lower

-- The three bytes of the truncation mark.
abbrev pub ellipsis : List ℕ
ellipsis = 0xe2 ∷ 0x80 ∷ 0xa6 ∷ []

unfoldable pub bounded_path : List ℕ → List ℕ
bounded_path raw =
    let path = before_query raw in
    if leb (length path) max_logged_path
    then path
    else take (boundary_below path max_logged_path) path ++ ellipsis
