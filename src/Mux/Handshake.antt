-- ===== src/Mux/Handshake.antt =====
-- crates/weaver-mux/src/handshake.rs: the handshake's states and the version negotiation.
use tunnel_weaver.Base.{
  ℕ, ◌≡◌, ltb, leb, ◌&&◌, if◌then◌else◌, Bool, true, Result, ok, err, min, arith,
}
use tunnel_weaver.Mux.Error.{RejectCode}
use tunnel_weaver.Mux.Wire.{min_version, max_version}

pub data HandshakeState : Type 0 where
  await_challenge challenge_sent hello_sent done : HandshakeState

unfoldable pub negotiate : ℕ → Result RejectCode ℕ
negotiate client_max =
    if ltb client_max min_version
    then err (RejectCode.unsupported_version min_version max_version)
    else ok (min client_max max_version)

unfoldable pub accept_version : ℕ → ℕ → Bool
accept_version offered chosen =
    leb min_version chosen && leb chosen max_version && leb chosen offered

-- Whatever version the server picks for an offer, the client that made the offer accepts it.
pub accept_version-negotiate :
    (offered v : ℕ) → negotiate offered ≡ ok v → accept_version offered v ≡ true
unfolding negotiate accept_version
accept_version-negotiate offered v h = ground arith
