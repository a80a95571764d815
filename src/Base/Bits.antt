-- ===== src/Base/Bits.antt =====
-- The bitwise operations, lane by lane: on numbers that are cut in two at a bit, they work on the parts.
use Prim.Native.Nat.{
  ℕ, zero, suc, ◌+◌, ◌-◌, ◌*◌, ◌/◌, ◌%◌, ◌^◌, ◌≤◌, ◌<◌, min, max, differ, digits, bitwise, bit_and,
  bit_or, bit_xor, bit_and-bitwise, bit_or-bitwise, bit_xor-bitwise,
}
use mathlib.Core.Path.{◌≡◌, refl, sym, ap, ◌∙◌}
use mathlib.Core.Logic.{inl, inr}
use mathlib.Core.Bool.{Bool, true, false}
use native.Mathlib.Nat.{pow-suc, le_refl}
use native.Mathlib.Omega.{arith}
use tunnel_weaver.Base.Tests.{Bool-cases}

-- Once the first number has run out, its digits are done, whatever the count says; so what a count is
-- more than enough by does not matter.
module _ (z : ℕ → ℕ) (f : ℕ → ℕ → ℕ) where
  digits-none : (count b : ℕ) → digits z f count 0 b ≡ z b
  digits-none zero b = refl
  digits-none (suc count) b = refl

  digits_enough :
      (more count a b : ℕ) → a ≤ count → digits z f (count + more) a b ≡ digits z f count a b
  digits_enough more count zero b le = digits-none (count + more) b ∙ sym (digits-none count b)
  digits_enough more zero (suc a) b le = absurd (omega arith)
  digits_enough more (suc count) (suc a) b le =
      let counted : suc count + more ≡ suc (count + more) = omega arith in
      ap (λ n. digits z f n (suc a) b) counted
      ∙ ap (λ high. high * 2 + f (suc a % 2) (b % 2))
          (digits_enough more count (suc a / 2) (b / 2) (omega arith))

  -- The lowest digit, and the others.
  bitwise-low :
      (a b : ℕ)
      → bitwise z f (suc a) b ≡ bitwise z f (suc a / 2) (b / 2) * 2 + f (suc a % 2) (b % 2)
  bitwise-low a b =
      let half = suc a / 2 in
      let whole : a ≡ half + (a - half) = omega arith in
      ap (λ high. high * 2 + f (suc a % 2) (b % 2))
        (ap (λ count. digits z f count half (b / 2)) whole
          ∙ digits_enough (a - half) half half (b / 2) (le_refl half))

pub bit_and-low : (a b : ℕ) → bit_and a b ≡ bit_and (a / 2) (b / 2) * 2 + min (a % 2) (b % 2)
bit_and-low zero b = simp bit_and-bitwise (omega arith)
bit_and-low (suc a) b = simp bit_and-bitwise (bitwise-low (λ y. 0) min a b)

pub bit_or-low : (a b : ℕ) → bit_or a b ≡ bit_or (a / 2) (b / 2) * 2 + max (a % 2) (b % 2)
bit_or-low zero b = simp bit_or-bitwise (omega arith)
bit_or-low (suc a) b = simp bit_or-bitwise (bitwise-low (λ y. y) max a b)

pub bit_xor-low : (a b : ℕ) → bit_xor a b ≡ bit_xor (a / 2) (b / 2) * 2 + differ (a % 2) (b % 2)
bit_xor-low zero b = simp bit_xor-bitwise (omega arith)
bit_xor-low (suc a) b = simp bit_xor-bitwise (bitwise-low (λ y. y) differ a b)

module _ (op f : ℕ → ℕ → ℕ) (low : (a b : ℕ) → op a b ≡ op (a / 2) (b / 2) * 2 + f (a % 2) (b % 2))
    (nothing : op 0 0 ≡ 0) where
  cut :
      (n a b x y : ℕ)
      → a < 2 ^ n
      → b < 2 ^ n
      → op (a + 2 ^ n * x) (b + 2 ^ n * y) ≡ op a b + 2 ^ n * op x y
  cut zero a b x y p q =
      let left : a + 2 ^ 0 * x ≡ x = omega arith in
      let right : b + 2 ^ 0 * y ≡ y = omega arith in
      let az : a ≡ 0 = omega arith in
      let bz : b ≡ 0 = omega arith in rw (left, right, az, bz) (omega (arith, nothing))
  cut (suc n) a b x y p q =
      let double : (t : ℕ) → 2 ^ suc n * t ≡ 2 * (2 ^ n * t) =
        λ t. omega (arith, ap (λ (p : ℕ). p * t) (pow-suc 2 n)) in
      let ih =
        cut n (a / 2) (b / 2) x y (omega (arith, pow-suc 2 n)) (omega (arith, pow-suc 2 n)) in
      let low_sum = low (a + 2 ^ suc n * x) (b + 2 ^ suc n * y) in
      let low_part = low a b in
      let ha : (a + 2 ^ suc n * x) / 2 ≡ a / 2 + 2 ^ n * x = omega (arith, double x) in
      let hb : (b + 2 ^ suc n * y) / 2 ≡ b / 2 + 2 ^ n * y = omega (arith, double y) in
      let ra : (a + 2 ^ suc n * x) % 2 ≡ a % 2 = omega (arith, double x) in
      let rb : (b + 2 ^ suc n * y) % 2 ≡ b % 2 = omega (arith, double y) in
      rw (low_sum, ha, hb, ra, rb, ih) (omega (arith, low_part, double (op x y)))

  -- Cut at a byte.
  pub cut_byte :
      (a b x y : ℕ) → a < 256 → b < 256 → op (a + 256 * x) (b + 256 * y) ≡ op a b + 256 * op x y
  cut_byte a b x y p q = cut 8 a b x y p q

-- A test that is passed by all numbers below a bound, by running it on each.
unfoldable pub passed_below : (ℕ → Bool) → ℕ → Bool
passed_below test zero = true
passed_below test (suc bound) = elim (test bound) [ true ↦ passed_below test bound | false ↦ false ]

pub passed_below_lem :
    (test : ℕ → Bool) (bound : ℕ)
    → passed_below test bound ≡ true
    → (i : ℕ) → i < bound
    → test i ≡ true
unfolding passed_below
passed_below_lem test zero passed i below = absurd (omega arith)
passed_below_lem test (suc bound) passed i below = elim (Bool-cases (test bound)) [
  | inr fails ↦ absurd (ground arith)
  | inl holds ↦ ground (arith, passed_below_lem test bound (ground arith) i)
]
