-- ===== src/Relay/Host.antt =====
-- crates/weaver-server/src/edge/host.rs: the host that a request names. A header's value is its bytes.
pub mod Grammar
use tunnel_weaver.Base.{
  ℕ, ◌==◌, leb, ◌&&◌, ◌||◌, not, if◌then◌else◌, Bool, true, false, List, [], ◌∷◌, ◌++◌, Option,
  none, some, Result, ok, err, length, is_empty, bytes_eq, to_ascii_lowercase, is_digit,
  is_hex_digit, is_alphanumeric,
}

pub data HostError : Type 0 where
  missing duplicate invalid mismatch : HostError

-- `position` of a byte, as what stands before and after it.
unfoldable pub split_at : ℕ → List ℕ → Option (List ℕ × List ℕ)
split_at c [] = none
split_at c (b ∷ bs) = elim (b == c) [
  | true ↦ some ([], bs)
  | false ↦ elim (split_at c bs) [ none ↦ none | some (before, after) ↦ some (b ∷ before, after) ]
]

unfoldable pub is_literal_byte : ℕ → Bool
unfolding is_hex_digit
is_literal_byte b = is_hex_digit b || (b == b':' || b == b'.')

unfoldable pub is_name_byte : ℕ → Bool
unfolding is_alphanumeric
is_name_byte b = is_alphanumeric b || (b == b'.' || (b == b'-' || b == b'_'))

unfoldable pub every : (ℕ → Bool) → List ℕ → Bool
every p [] = true
every p (b ∷ bs) = p b && every p bs

-- The host and the port behind it, before they are checked. An address in brackets keeps them.
abbrev pub HostPort : Type 0
HostPort = List ℕ × Option (List ℕ)

abbrev pub literal_port : List ℕ → List ℕ → Option HostPort
literal_port literal [] = some (b'[' ∷ literal ++ (b']' ∷ []), none)
literal_port literal (b ∷ port) =
    if b == b':' then some (b'[' ∷ literal ++ (b']' ∷ []), some port) else none

abbrev pub literal_host : Option (List ℕ × List ℕ) → Option HostPort
literal_host none = none
literal_host (some (literal, after)) =
    if is_empty literal || not (every is_literal_byte literal)
    then none
    else literal_port literal after

abbrev pub name_host : List ℕ → Option (List ℕ × List ℕ) → HostPort
name_host raw none = (raw, none)
name_host raw (some (host, port)) = (host, some port)

abbrev pub is_bracket : List ℕ → Bool
is_bracket [] = false
is_bracket (b ∷ bs) = b == b'['

unfoldable pub split_host : List ℕ → Option HostPort
split_host [] = some ([], none)
split_host (b ∷ bs) =
    if b == b'['
    then literal_host (split_at b']' bs)
    else some (name_host (b ∷ bs) (split_at b':' (b ∷ bs)))

abbrev pub bad_port : Option (List ℕ) → Bool
bad_port none = false
bad_port (some port) = is_empty port || (not (leb (length port) 5) || not (every is_digit port))

abbrev pub checked : Option HostPort → Option (List ℕ)
checked none = none
checked (some (host, port)) =
    if is_empty host || not (leb (length host) 255)
    then none
    else if not (is_bracket host) && not (every is_name_byte host)
    then none
    else if bad_port port
    then none
    else some host

unfoldable pub parse_host_value : List ℕ → Option (List ℕ)
parse_host_value raw = checked (split_host raw)

unfoldable pub eq_ignore_ascii_case : List ℕ → List ℕ → Bool
eq_ignore_ascii_case a b = bytes_eq (to_ascii_lowercase a) (to_ascii_lowercase b)

-- What a line or an authority names, where there is one.
abbrev pub parsed : Option (List ℕ) → Result HostError (Option (List ℕ))
parsed none = err HostError.invalid
parsed (some host) = ok (some host)

abbrev pub host_of : Option (List ℕ) → Result HostError (Option (List ℕ))
host_of none = ok none
host_of (some raw) = parsed (parse_host_value raw)

abbrev pub agreed : Bool → Option (List ℕ) → Option (List ℕ) → Result HostError (List ℕ)
agreed http2 none none = err HostError.missing
agreed http2 none (some header) = ok header
agreed http2 (some target) none = ok target
agreed http2 (some target) (some header) =
    if http2 && not (eq_ignore_ascii_case target header) then err HostError.mismatch else ok target

abbrev pub with_target :
    Bool → Result HostError (Option (List ℕ)) → Option (List ℕ) → Result HostError (List ℕ)
with_target http2 (err e) header = err e
with_target http2 (ok target) header = agreed http2 target header

abbrev pub with_header :
    Bool → Option (List ℕ) → Result HostError (Option (List ℕ)) → Result HostError (List ℕ)
with_header http2 authority (err e) = err e
with_header http2 authority (ok header) = with_target http2 (host_of authority) header

-- The lines of `Host`, the authority of the request-target, and whether the request is HTTP/2.
unfoldable pub request_host : List (List ℕ) → Option (List ℕ) → Bool → Result HostError (List ℕ)
unfolding parse_host_value eq_ignore_ascii_case
request_host [] authority http2 = with_header http2 authority (ok none)
request_host (line ∷ []) authority http2 = with_header http2 authority (host_of (some line))
request_host (line ∷ other ∷ lines) authority http2 = err HostError.duplicate
