-- ===== src/Base/Tables.antt =====
-- Facts about small numbers that are checked by evaluation, and recursion on `<`.
use Prim.Native.Nat.{ℕ, zero, suc, ◌<◌}
use mathlib.Core.Path.{◌≡◌}
use mathlib.Core.Bool.{Bool, true}
use tunnel_weaver.Base.Tests.{◌==◌, if◌then◌else◌}
use native.Mathlib.Omega.{arith}
use mathlib.Core.Bool.{false}

module _ (f g : ℕ → ℕ) where
  -- `f` and `g` agree below `n`.
  unfoldable pub agree_below : ℕ → Bool
  agree_below zero = true
  agree_below (suc n) = if f n == g n then agree_below n else false

  pub agree_below→eq : (n : ℕ) → agree_below n ≡ true → (i : ℕ) → i < n → f i ≡ g i
  unfolding agree_below
  agree_below→eq zero e i h = absurd (omega arith)
  agree_below→eq (suc n) e i h = ground (arith, agree_below→eq n (ground arith) i)
