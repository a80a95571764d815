-- ===== src/Abuse/Scanner/Words/Masks.antt =====
-- The masks of a word of eight bytes, by their lanes.
use Prim.Native.Nat.{bit_and, bit_or, min}
use tunnel_weaver.Base.{
  ℕ, zero, suc, ◌+◌, ◌-◌, ◌*◌, ◌/◌, ◌<◌, ◌≤◌, ◌≡◌, refl, sym, ap, ◌∙◌, ◌==◌, ltb, leb, ltb→lt, ◌||◌,
  ◌⊎◌, ◌&&◌, not, if◌then◌else◌, Bool, List, [], ◌∷◌, All, IsByte, u64, u64_max, sub64, arith,
}
use tunnel_weaver.Base.Bits.{bit_and-low, cut_byte, passed_below, passed_below_lem}
use tunnel_weaver.Abuse.Scanner.Words.{ones, highs, not64, le_word, ge_mask}
use tunnel_weaver.Abuse.Scanner.Words.Lanes.{
  IsLane, word, bit_and-word, bit_or-word, word-≤, sub-word, any,
}

pub word-const : (c : ℕ) (bs : List ℕ) → word (λ _. c) bs ≡ word (λ _. 1) bs * c
word-const c [] = omega arith
word-const c (b ∷ bs) = omega (arith, word-const c bs)

pub le_word-word : (bs : List ℕ) → le_word bs ≡ word (λ b. b) bs
le_word-word [] = refl
le_word-word (b ∷ bs) = ap (λ w. b + 256 * w) (le_word-word bs)

-- The tables of the byte operations that the masks are made of.
or_high-bounds : (b : ℕ) → b < 256 → (0x80 ≤ bit_or b 0x80) × (bit_or b 0x80 < 256)
unfolding passed_below
or_high-bounds b h =
    let both =
      passed_below_lem (λ b. leb 0x80 (bit_or b 0x80) && ltb (bit_or b 0x80) 256) 256 refl b h in
    ground arith

and_high-bound : (b : ℕ) → b < 256 → bit_and b 0x80 < 256
unfolding passed_below
and_high-bound b h = ltb→lt _ _ (passed_below_lem (λ b. ltb (bit_and b 0x80) 256) 256 refl b h)

and_high-cases : (b : ℕ) → b < 256 → (bit_and b 0x80 ≡ 0) ⊎ (bit_and b 0x80 ≡ 0x80)
unfolding passed_below
and_high-cases b h =
    let either =
      passed_below_lem (λ b. bit_and b 0x80 == 0 || bit_and b 0x80 == 0x80) 256 refl b h in
    ground arith

-- What `ge_mask` is on one lane.
unfoldable pub ge_lane : ℕ → ℕ → ℕ
ge_lane m b = bit_and (bit_or b 0x80 - m) 0x80

pub ge_lane-IsLane : (m : ℕ) → IsLane (ge_lane m)
unfolding ge_lane
ge_lane-IsLane m b h = and_high-bound (bit_or b 0x80 - m) (omega (arith, or_high-bounds b h))

le_trans : (a b c : ℕ) → a ≤ b → b ≤ c → a ≤ c
le_trans a b c p q = omega arith

pub sub64-sub : (a b : ℕ) → b ≤ a → a ≤ u64_max → sub64 a b ≡ a - b
sub64-sub a b p q = omega arith

module _ (bs : List ℕ) (h : All IsByte bs) (eight : word (λ _. 1) bs ≡ ones) where
  pub highs-word : word (λ _. 0x80) bs ≡ highs
  highs-word = omega (arith, word-const 0x80 bs, eight)

  pub word-IsU64 : (f : ℕ → ℕ) → IsLane f → word f bs ≤ u64_max
  word-IsU64 f l =
      omega
        (arith, word-const 255 bs, eight, word-≤ (λ _. 255) f (λ b lt. omega (arith, l b lt)) bs h)

  pub not64-word : (f : ℕ → ℕ) → IsLane f → not64 (word f bs) ≡ word (λ b. 255 - f b) bs
  not64-word f l =
      omega (
        arith,
        word-const 255 bs,
        eight,
        sub-word (λ _. 255) f (λ b lt. omega (arith, l b lt)) bs h,
      )

  pub ge_mask-word : (m : ℕ) → m ≤ 0x80 → ge_mask (word (λ b. b) bs) m ≡ word (ge_lane m) bs
  unfolding ge_mask ge_lane
  ge_mask-word m le =
      let raised : bit_or (word (λ b. b) bs) highs ≡ word (λ b. bit_or b 0x80) bs =
        ap (λ w. bit_or (word (λ b. b) bs) w) (sym highs-word)
        ∙ bit_or-word (λ b. b) (λ _. 0x80) (λ b lt. lt) (λ b lt. omega arith) bs h in
      let step : u64 (ones * m) ≡ word (λ _. m) bs =
        omega (arith, word-const m bs, ap (λ w. w * m) eight) in
      let below =
        λ (b : ℕ) (lt : b < 256). le_trans m 0x80 (bit_or b 0x80) le (or_high-bounds b lt).0 in
      let lowered : sub64 (word (λ b. bit_or b 0x80) bs) (word (λ _. m) bs)
          ≡ word (λ b. bit_or b 0x80 - m) bs =
        sub64-sub _ _ (word-≤ (λ b. bit_or b 0x80) (λ _. m) below bs h)
          (word-IsU64 (λ b. bit_or b 0x80) (λ b lt. (or_high-bounds b lt).1))
        ∙ sub-word (λ b. bit_or b 0x80) (λ _. m) below bs h in
      (λ i. bit_and (sub64 (raised i) (step i)) highs)
      ∙ (λ i. bit_and (lowered i) (sym highs-word i))
      ∙ bit_and-word (λ b. bit_or b 0x80 - m) (λ _. 0x80)
          (λ b lt. omega (arith, or_high-bounds b lt)) (λ b lt. omega arith) bs h

-- `eq_del_mask` borrows from lane to lane, so its lanes are followed from the lowest on. The difference
-- of two words of one width, whose greatest value is `full`.
unfoldable pub wrapped : ℕ → ℕ → ℕ → ℕ
wrapped a b full = if leb b a then a - b else a + (full + 1) - b

unfoldable pub zero_mask : (ℕ → ℕ) → List ℕ → ℕ
zero_mask f bs =
    bit_and
      (bit_and (wrapped (word f bs) (word (λ _. 1) bs) (word (λ _. 255) bs))
        (word (λ _. 255) bs - word f bs))
      (word (λ _. 0x80) bs)

masks-cut :
    (u w x y z : ℕ)
    → u < 256
    → w < 256
    → bit_and u w < 256
    → bit_and (bit_and (u + 256 * x) (w + 256 * y)) (0x80 + 256 * z)
      ≡ bit_and (bit_and u w) 0x80 + 256 * bit_and (bit_and x y) z
masks-cut u w x y z p q r =
    ap (λ t. bit_and t (0x80 + 256 * z)) (cut_byte bit_and min bit_and-low refl u w x y p q)
    ∙ cut_byte bit_and min bit_and-low refl (bit_and u w) 0x80 (bit_and x y) z r (omega arith)

-- Below a lane that is not zero: its two operands, and that they have no high bit in common.
no_borrow :
    (y : ℕ) → y < 255 → (bit_and y (254 - y) < 256) × (bit_and (bit_and y (254 - y)) 0x80 ≡ 0)
unfolding passed_below
no_borrow y h =
    let both =
      passed_below_lem
        (λ y. ltb (bit_and y (254 - y)) 256 && bit_and (bit_and y (254 - y)) 0x80 == 0) 255 refl y
        h in
    ground arith

wrapped-borrow :
    (y o full : ℕ)
    → y ≤ full
    → o ≤ full
    → wrapped (0 + 256 * y) (1 + 256 * o) (255 + 256 * full)
      ≡ 255 + 256 * (wrapped (0 + 256 * y) (1 + 256 * o) (255 + 256 * full) / 256)
unfolding wrapped
wrapped-borrow y o full p q = ground arith

wrapped-step :
    (c y o full : ℕ)
    → c < 255
    → y ≤ full
    → o ≤ full
    → wrapped (suc c + 256 * y) (1 + 256 * o) (255 + 256 * full) ≡ c + 256 * wrapped y o full
unfolding wrapped
wrapped-step c y o full s p q = ground arith

-- One lane of the mask, in front of the others.
zero_lane :
    (y rest o full high : ℕ) (others : Bool)
    → y < 256
    → rest ≤ full
    → o ≤ full
    → not (bit_and (bit_and (wrapped rest o full) (full - rest)) high == 0) ≡ others
    → not (
        bit_and
          (bit_and
            (wrapped (y + 256 * rest) (1 + 256 * o) (255 + 256 * full))
            (255 + 256 * full - (y + 256 * rest)))
          (0x80 + 256 * high)
        == 0)
      ≡ ((y == 0) || others)
zero_lane zero rest o full high others lt le one ih =
    let v = wrapped (0 + 256 * rest) (1 + 256 * o) (255 + 256 * full) / 256 in
    let turned : 255 + 256 * full - (0 + 256 * rest) ≡ 255 + 256 * (full - rest) = omega arith in
    let cut = masks-cut 255 255 v (full - rest) high (omega arith) (omega arith) (omega arith) in
    rw (wrapped-borrow rest o full le one, turned, cut) (ground arith)
zero_lane (suc y) rest o full high others lt le one ih =
    let small = no_borrow y (omega arith) in
    let turned : 255 + 256 * full - (suc y + 256 * rest) ≡ (254 - y) + 256 * (full - rest) =
      omega arith in
    let cut =
      masks-cut y (254 - y) (wrapped rest o full) (full - rest) high (omega arith) (omega arith)
        small.0 in
    rw (wrapped-step y rest o full (omega arith) le one, turned, cut, small.1) (ground arith)

module _ (f : ℕ → ℕ) (l : IsLane f) where
  pub zero_mask-any :
      (bs : List ℕ) → All IsByte bs → not (zero_mask f bs == 0) ≡ any (λ b. f b == 0) bs
  unfolding zero_mask wrapped
  zero_mask-any [] h = refl
  zero_mask-any (b ∷ bs) h =
      let full = word (λ _. 255) bs in
      let rest = word f bs in
      let le : rest ≤ full = word-≤ (λ _. 255) f (λ c lt. omega (arith, l c lt)) bs h.1 in
      let one : word (λ _. 1) bs ≤ full = word-≤ (λ _. 255) (λ _. 1) (λ c lt. omega arith) bs h.1 in
      zero_lane (f b) rest (word (λ _. 1) bs) full (word (λ _. 0x80) bs) (any (λ c. f c == 0) bs)
        (l b h.0) le one (zero_mask-any bs h.1)
