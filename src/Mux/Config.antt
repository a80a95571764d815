-- ===== src/Mux/Config.antt =====
-- crates/weaver-mux/src/config.rs: the configuration of a connection. The boxed signer, verifier and
-- generator that the source keeps in it are functions of `Env`; durations are nanoseconds.
use tunnel_weaver.Base.{ℕ, ◌*◌, Bool, true, false, List, Option, none, some, min, max}
use tunnel_weaver.Mux.Wire.{Params}

pub data Role : Type 0 where
  client : Role
  server : (params : Params) (reverify_interval : Option ℕ) → Role

unfoldable pub is_server : Role → Bool
is_server Role.client = false
is_server (Role.server _ _) = true

pub record Weights : Type 0 where
  pub control : ℕ  -- u32
  pub realtime : ℕ  -- u32
  pub interactive : ℕ  -- u32
  pub bulk : ℕ  -- u32

-- `Weights::default` and `Params::default`.
abbrev pub default_weights : Weights
default_weights = record { control = 1000; realtime = 300; interactive = 300; bulk = 40 }

abbrev pub default_params : Params
default_params = record {
  max_frame = 16 * 1024;
  initial_window = 512 * 1024;
  compression_allowed = true;
  max_message = 1024 * 1024;
}

abbrev pub min_window : ℕ
min_window = 64 * 1024

abbrev pub max_window : ℕ
max_window = 4 * 1024 * 1024

abbrev pub min_message : ℕ
min_message = 16 * 1024

-- 10 seconds.
abbrev pub handshake_timeout : ℕ
handshake_timeout = 10 * 1_000_000_000

pub record Config : Type 0 where
  pub role : Role
  pub server_name : List ℕ
  pub weights : Weights
  pub bulk_threshold : Option ℕ
  pub ping_interval : ℕ
  pub idle_timeout : ℕ
  pub channel_binding : Option (List ℕ)

-- `Config::base`, which `Config::client` and `Config::server` call.
unfoldable pub base : Role → List ℕ → Config
base role server_name = record {
  role = role;
  server_name = server_name;
  weights = default_weights;
  bulk_threshold = some (256 * 1024);
  ping_interval = 15 * 1_000_000_000;
  idle_timeout = 60 * 1_000_000_000;
  channel_binding = none;
}

-- `initial_window.clamp(MIN_WINDOW, MAX_WINDOW)` and the two `max`.
unfoldable pub normalize_params : Params → Params
normalize_params p = record p {
  initial_window = min (max p.initial_window min_window) max_window;
  max_frame = max p.max_frame 2;
  max_message = max p.max_message min_message;
}

abbrev pub normalize_role : Role → Role
normalize_role Role.client = Role.client
normalize_role (Role.server params every) = Role.server (normalize_params params) every

unfoldable pub normalize : Config → Config
unfolding normalize_params
normalize cfg = record cfg { role = normalize_role cfg.role }
