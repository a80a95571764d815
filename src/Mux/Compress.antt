-- ===== src/Mux/Compress.antt =====
-- The policy part of crates/weaver-mux/src/compress.rs. The zstd contexts and the floating-point
-- entropy probe are functions of `Env`.
use tunnel_weaver.Base.{ℕ, ltb, ◌||◌, if◌then◌else◌, Bool, true, false, List, length, take}
use tunnel_weaver.Mux.Class.{Class, class_beq}
use tunnel_weaver.Mux.Env.{Env}

pub data Compress : Type 0 where
  auto never : Compress

abbrev pub is_never : Compress → Bool
is_never Compress.auto = false
is_never Compress.never = true

abbrev pub min_compress_len : ℕ
min_compress_len = 1024

abbrev pub entropy_sample : ℕ
entropy_sample = 4096

unfoldable pub should_compress : Env → Compress → Class → List ℕ → Bool
should_compress env stance class fragment =
    if is_never stance || class_beq class Class.realtime
    then false
    else if ltb (length fragment) min_compress_len
    then false
    else env.below_cutoff (take entropy_sample fragment)
