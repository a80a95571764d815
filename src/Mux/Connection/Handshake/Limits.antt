-- ===== src/Mux/Connection/Handshake/Limits.antt =====
-- What a server announces in WELCOME against what a client accepts.
use tunnel_weaver.Base.{ℕ, ◌≡◌, none, ok, arith}
use tunnel_weaver.Mux.Wire.{Params, max_version}
use tunnel_weaver.Mux.Config.{normalize_params}
use tunnel_weaver.Mux.Handshake.{negotiate, accept_version-negotiate}
use tunnel_weaver.Mux.Connection.Handshake.{check_welcome}

-- Whatever parameters a server was configured with, the WELCOME that it builds from their normalized
-- form and the version that it picks for a client's offer passes every check of the client.
pub check_welcome-normalize_params :
    (p : Params) (v : ℕ)
    → negotiate max_version ≡ ok v
    → check_welcome (record { version = v; params = normalize_params p }) ≡ none
unfolding check_welcome normalize_params
check_welcome-normalize_params p v h =
    let agreed = accept_version-negotiate max_version v h in ground arith
