-- ===== src/Relay/Control.antt =====
-- crates/weaver-proto/src/control.rs and lib.rs: the first message of a client, and its check.
pub mod ServiceName
use tunnel_weaver.Base.{
  ℕ, ◌==◌, leb, ◌&&◌, not, if◌then◌else◌, Bool, true, false, List, [], ◌∷◌, Result, ok, err, length,
  is_empty, is_digit, ◌>>=◌, ◌>>◌,
}
use tunnel_weaver.Relay.Host.{every}
use tunnel_weaver.Relay.Names.{is_name_char}

abbrev pub min_protocol_version : ℕ
min_protocol_version = 1

abbrev pub protocol_version : ℕ
protocol_version = 1

abbrev pub service_name_max : ℕ
service_name_max = 31

pub data RefusalCode : Type 0 where
  already_registered invalid_name unauthorized other : RefusalCode
  unsupported_version : (min max : ℕ) → RefusalCode

pub data ControlHead : Type 0 where
  register : (proto_version : ℕ) → (service : List ℕ) → ControlHead
  revoke : (proto_version : ℕ) → ControlHead

-- `split`: the run in front of the first separator, and the runs behind it.
unfoldable pub split : ℕ → List ℕ → List ℕ × List (List ℕ)
split c [] = ([], [])
split c (b ∷ bs) =
    let (run, runs) = split c bs in if b == c then ([], run ∷ runs) else (b ∷ run, runs)

abbrev pub is_run : List ℕ → Bool
is_run run = not (is_empty run) && every is_name_char run

unfoldable pub every_run : List (List ℕ) → Bool
unfolding every is_name_char
every_run [] = true
every_run (run ∷ runs) = is_run run && every_run runs

unfoldable pub is_valid_service_name : List ℕ → Bool
unfolding split every_run every is_name_char
is_valid_service_name name =
    let (run, runs) = split b'-' name in
    leb (length name) service_name_max && (is_run run && every_run runs)

unfoldable pub accept_protocol_version : ℕ → Result RefusalCode (Unit {0})
accept_protocol_version client =
    if leb min_protocol_version client && leb client protocol_version
    then ok tt
    else err (RefusalCode.unsupported_version min_protocol_version protocol_version)

-- `ControlHead::register` and `ControlHead::revoke`.
unfoldable pub register_head : List ℕ → Result RefusalCode ControlHead
unfolding is_valid_service_name
register_head service =
    if not (is_valid_service_name service)
    then err RefusalCode.invalid_name
    else ok (ControlHead.register protocol_version service)

unfoldable pub revoke_head : ControlHead
revoke_head = ControlHead.revoke protocol_version

unfoldable pub validate : ControlHead → Result RefusalCode (Unit {0})
unfolding accept_protocol_version is_valid_service_name
validate (ControlHead.register proto_version service) = do
  accept_protocol_version proto_version
  if not (is_valid_service_name service) then err RefusalCode.invalid_name else ok tt
validate (ControlHead.revoke proto_version) = accept_protocol_version proto_version
