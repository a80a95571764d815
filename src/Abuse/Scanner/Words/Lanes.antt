-- ===== src/Abuse/Scanner/Words/Lanes.antt =====
-- Words as lanes of one byte: what the masks of `classify` are on each lane.
use Prim.Native.Nat.{bit_and, bit_or, bit_xor, differ, min, max}
use tunnel_weaver.Base.{
  ℕ, ◌+◌, ◌-◌, ◌*◌, ◌<◌, ◌≤◌, ◌≡◌, refl, ap, ◌∙◌, ◌==◌, ◌||◌, not, Bool, false, List, [], ◌∷◌, All,
  IsByte, arith,
}
use tunnel_weaver.Base.Bits.{bit_and-low, bit_or-low, bit_xor-low, cut_byte}

-- A function that takes bytes to bytes, and the word of its values.
abbrev pub IsLane : (ℕ → ℕ) → Type 0
IsLane f = (b : ℕ) → b < 256 → f b < 256

abbrev pub word : (ℕ → ℕ) → List ℕ → ℕ
word f [] = 0
word f (b ∷ bs) = f b + 256 * word f bs

module _ (f g : ℕ → ℕ) (lf : IsLane f) (lg : IsLane g) where
  pub bit_and-word :
      (bs : List ℕ)
      → All IsByte bs
      → bit_and (word f bs) (word g bs) ≡ word (λ b. bit_and (f b) (g b)) bs
  bit_and-word [] h = refl
  bit_and-word (b ∷ bs) h =
      cut_byte bit_and min bit_and-low refl (f b) (g b) (word f bs) (word g bs) (lf b h.0)
        (lg b h.0)
      ∙ ap (λ w. bit_and (f b) (g b) + 256 * w) (bit_and-word bs h.1)

  pub bit_or-word :
      (bs : List ℕ)
      → All IsByte bs
      → bit_or (word f bs) (word g bs) ≡ word (λ b. bit_or (f b) (g b)) bs
  bit_or-word [] h = refl
  bit_or-word (b ∷ bs) h =
      cut_byte bit_or max bit_or-low refl (f b) (g b) (word f bs) (word g bs) (lf b h.0) (lg b h.0)
      ∙ ap (λ w. bit_or (f b) (g b) + 256 * w) (bit_or-word bs h.1)

  pub bit_xor-word :
      (bs : List ℕ)
      → All IsByte bs
      → bit_xor (word f bs) (word g bs) ≡ word (λ b. bit_xor (f b) (g b)) bs
  bit_xor-word [] h = refl
  bit_xor-word (b ∷ bs) h =
      cut_byte bit_xor differ bit_xor-low refl (f b) (g b) (word f bs) (word g bs) (lf b h.0)
        (lg b h.0)
      ∙ ap (λ w. bit_xor (f b) (g b) + 256 * w) (bit_xor-word bs h.1)

-- A subtraction that borrows in no lane.
module _ (f g : ℕ → ℕ) (le : (b : ℕ) → b < 256 → g b ≤ f b) where
  pub word-≤ : (bs : List ℕ) → All IsByte bs → word g bs ≤ word f bs
  word-≤ [] h = omega arith
  word-≤ (b ∷ bs) h = omega (arith, le b h.0, word-≤ bs h.1)

  pub sub-word : (bs : List ℕ) → All IsByte bs → word f bs - word g bs ≡ word (λ b. f b - g b) bs
  sub-word [] h = refl
  sub-word (b ∷ bs) h = omega (arith, le b h.0, word-≤ bs h.1, sub-word bs h.1)

-- A word is zero exactly if all of its lanes are.
abbrev pub any : (ℕ → Bool) → List ℕ → Bool
any p [] = false
any p (b ∷ bs) = p b || any p bs

module _ (f : ℕ → ℕ) (p : ℕ → Bool) (is : (b : ℕ) → b < 256 → not (f b == 0) ≡ p b) where
  pub word-any : (bs : List ℕ) → All IsByte bs → not (word f bs == 0) ≡ any p bs
  word-any [] h = refl
  word-any (b ∷ bs) h = ground (arith, is b h.0, word-any bs h.1)
