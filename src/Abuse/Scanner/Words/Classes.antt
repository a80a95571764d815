-- ===== src/Abuse/Scanner/Words/Classes.antt =====
-- `classify` against the test of one byte at a time.
use Prim.Native.Nat.{bit_and, bit_xor}
use tunnel_weaver.Base.{
  ℕ, ◌-◌, ◌<◌, ◌≤◌, ◌≡◌, refl, sym, ap, ◌∙◌, ◌==◌, ltb, ◌||◌, ◌&&◌, not, if◌then◌else◌, Bool, true,
  List, [], ◌∷◌, ◌++◌, All, IsByte, sub64, u64_max, is_upper, arith,
}
use tunnel_weaver.Base.Bits.{passed_below, passed_below_lem}
use tunnel_weaver.Abuse.Scanner.Words.{
  ones, highs, dels, not64, ge_mask, eq_del_mask, word_malformed, word_upper, is_malformed,
  classify, classify_tail,
}
use tunnel_weaver.Abuse.Scanner.Words.Lanes.{
  IsLane, word, bit_and-word, bit_xor-word, any, word-any,
}
use tunnel_weaver.Abuse.Scanner.Words.Masks.{
  ge_lane, ge_mask-word, highs-word, not64-word, zero_mask, zero_mask-any, word-const, word-IsU64,
  wrapped, ge_lane-IsLane,
}

-- Two tests that agree on every byte.
agree : Bool → Bool → Bool
agree a b = if a then b else not b

agree→≡ : (a b : Bool) → agree a b ≡ true → a ≡ b
unfolding agree
agree→≡ a b h = ground arith

control_lane : ℕ → ℕ
unfolding ge_lane
control_lane b = bit_and (bit_xor (ge_lane 0x20 b) 0x80) (255 - bit_and b 0x80)

upper_lane : ℕ → ℕ
unfolding ge_lane
upper_lane b = bit_and (bit_and (ge_lane 0x41 b) (255 - ge_lane 0x5b b)) (255 - bit_and b 0x80)

control_table : passed_below (λ b. agree (not (control_lane b == 0)) (ltb b 0x20)) 256 ≡ true
unfolding passed_below agree control_lane
control_table = refl

upper_table : passed_below (λ b. agree (not (upper_lane b == 0)) (is_upper b)) 256 ≡ true
unfolding passed_below agree upper_lane is_upper
upper_table = refl

del_table : passed_below (λ b. agree (bit_xor b 0x7f == 0) (b == 0x7f)) 256 ≡ true
unfolding passed_below agree
del_table = refl

-- The parts of the lanes stay bytes.
lane_table :
    passed_below
      (λ b.
        (ltb (bit_xor (ge_lane 0x20 b) 0x80) 256
          && ltb (bit_and (ge_lane 0x41 b) (255 - ge_lane 0x5b b)) 256)
        && (ltb (bit_and b 0x80) 256 && ltb (bit_xor b 0x7f) 256))
      256
    ≡ true
unfolding passed_below ge_lane
lane_table = refl

any-≡ :
    (p q : ℕ → Bool)
    → ((b : ℕ) → b < 256 → p b ≡ q b)
    → (bs : List ℕ) → All IsByte bs
    → any p bs ≡ any q bs
any-≡ p q e [] h = refl
any-≡ p q e (b ∷ bs) h = λ i. e b h.0 i || any-≡ p q e bs h.1 i

any-append : (p : ℕ → Bool) (xs ys : List ℕ) → any p (xs ++ ys) ≡ any p xs || any p ys
any-append p [] ys = refl
any-append p (x ∷ xs) ys = ground (arith, any-append p xs ys)

any-|| : (p q : ℕ → Bool) (bs : List ℕ) → any p bs || any q bs ≡ any (λ b. p b || q b) bs
any-|| p q [] = refl
any-|| p q (b ∷ bs) = ground (arith, any-|| p q bs)

lane-IsLane :
    (b : ℕ)
    → b < 256
    → (bit_xor (ge_lane 0x20 b) 0x80 < 256)
      × (bit_and (ge_lane 0x41 b) (255 - ge_lane 0x5b b) < 256)
      × (bit_and b 0x80 < 256)
      × (bit_xor b 0x7f < 256)
lane-IsLane b h = let all = passed_below_lem _ 256 lane_table b h in ground arith

sub64-wrapped : (a : ℕ) → a ≤ u64_max → sub64 a ones ≡ wrapped a ones u64_max
unfolding wrapped
sub64-wrapped a h = ground arith

module _ (bs : List ℕ) (h : All IsByte bs) (eight : word (λ _. 1) bs ≡ ones) where
  not_high-word : not64 (bit_and (word (λ b. b) bs) highs) ≡ word (λ b. 255 - bit_and b 0x80) bs
  not_high-word =
      ap not64 (
        ap (λ w. bit_and (word (λ b. b) bs) w) (sym (highs-word bs h eight))
        ∙ bit_and-word (λ b. b) (λ _. 0x80) (λ b lt. lt) (λ b lt. omega arith) bs h)
      ∙ not64-word bs h eight (λ b. bit_and b 0x80) (λ b lt. (lane-IsLane b lt).2)

  control-word :
      bit_and
        (bit_xor (ge_mask (word (λ b. b) bs) 0x20) highs)
        (not64 (bit_and (word (λ b. b) bs) highs))
      ≡ word control_lane bs
  unfolding control_lane
  control-word =
      (λ i.
        bit_and
          (bit_xor (ge_mask-word bs h eight 0x20 (omega arith) i) (sym (highs-word bs h eight) i))
          (not_high-word i))
      ∙ ap (λ w. bit_and w (word (λ b. 255 - bit_and b 0x80) bs))
          (bit_xor-word (ge_lane 0x20) (λ _. 0x80) (ge_lane-IsLane 0x20) (λ b lt. omega arith) bs h)
      ∙ bit_and-word (λ b. bit_xor (ge_lane 0x20 b) 0x80) (λ b. 255 - bit_and b 0x80)
          (λ b lt. (lane-IsLane b lt).0) (λ b lt. omega arith) bs h

  upper-word :
      bit_and
        (bit_and (ge_mask (word (λ b. b) bs) 0x41) (not64 (ge_mask (word (λ b. b) bs) 0x5b)))
        (not64 (bit_and (word (λ b. b) bs) highs))
      ≡ word upper_lane bs
  unfolding upper_lane
  upper-word =
      (λ i.
        bit_and
          (bit_and (ge_mask-word bs h eight 0x41 (omega arith) i)
            (not64 (ge_mask-word bs h eight 0x5b (omega arith) i)))
          (not_high-word i))
      ∙ ap (λ w. bit_and (bit_and (word (ge_lane 0x41) bs) w) (word (λ b. 255 - bit_and b 0x80) bs))
          (not64-word bs h eight (ge_lane 0x5b) (ge_lane-IsLane 0x5b))
      ∙ ap (λ w. bit_and w (word (λ b. 255 - bit_and b 0x80) bs))
          (bit_and-word (ge_lane 0x41) (λ b. 255 - ge_lane 0x5b b) (ge_lane-IsLane 0x41)
            (λ b lt. omega arith) bs h)
      ∙ bit_and-word (λ b. bit_and (ge_lane 0x41 b) (255 - ge_lane 0x5b b))
          (λ b. 255 - bit_and b 0x80) (λ b lt. (lane-IsLane b lt).1) (λ b lt. omega arith) bs h

  word_upper-any : word_upper (word (λ b. b) bs) ≡ any is_upper bs
  unfolding word_upper
  word_upper-any =
      ap (λ w. not (w == 0)) upper-word
      ∙ word-any upper_lane is_upper (λ b lt. agree→≡ _ _ (passed_below_lem _ 256 upper_table b lt))
          bs h

  eq_del_mask-any : not (eq_del_mask (word (λ b. b) bs) == 0) ≡ any (λ b. b == 0x7f) bs
  unfolding eq_del_mask zero_mask wrapped
  eq_del_mask-any =
      let del = λ (b : ℕ). bit_xor b 0x7f in
      let lane : IsLane del = λ b lt. (lane-IsLane b lt).3 in
      let flipped : bit_xor (word (λ b. b) bs) dels ≡ word del bs =
        ap (λ w. bit_xor (word (λ b. b) bs) w) (sym (omega (arith, word-const 0x7f bs, eight)))
        ∙ bit_xor-word (λ b. b) (λ _. 0x7f) (λ b lt. lt) (λ b lt. omega arith) bs h in
      let full : word (λ _. 255) bs ≡ u64_max = omega (arith, word-const 255 bs, eight) in
      let masks : bit_and (bit_and (sub64 (word del bs) ones) (not64 (word del bs))) highs
          ≡ zero_mask del bs =
        (λ i.
          bit_and
            (bit_and
              ((sub64-wrapped (word del bs) (word-IsU64 bs h eight del lane)
                  ∙ (λ j. wrapped (word del bs) (sym eight j) (sym full j)))
                i)
              (sym full i - word del bs))
            (sym (highs-word bs h eight) i)) in
      ap (λ y. not (bit_and (bit_and (sub64 y ones) (not64 y)) highs == 0)) flipped
      ∙ ap (λ w. not (w == 0)) masks
      ∙ zero_mask-any del lane bs h
      ∙ any-≡ (λ b. del b == 0) (λ b. b == 0x7f)
          (λ b lt. agree→≡ _ _ (passed_below_lem _ 256 del_table b lt)) bs h

  word_malformed-any : word_malformed (word (λ b. b) bs) ≡ any is_malformed bs
  unfolding word_malformed
  word_malformed-any =
      let control =
        ap (λ w. not (w == 0)) control-word
        ∙ word-any control_lane (λ b. ltb b 0x20)
            (λ b lt. agree→≡ _ _ (passed_below_lem _ 256 control_table b lt)) bs h in
      (λ i. control i || eq_del_mask-any i) ∙ any-|| (λ b. ltb b 0x20) (λ b. b == 0x7f) bs

tail-any : (bs : List ℕ) → classify_tail bs ≡ (any is_malformed bs, any is_upper bs)
unfolding classify_tail
tail-any [] = refl
tail-any (b ∷ bs) = λ i. (is_malformed b || (tail-any bs i).0, is_upper b || (tail-any bs i).1)

-- The word-wise scan is the byte-wise one: for every path, `classify` finds a malformed byte exactly if
-- some byte is a control character or DEL, and an upper-case letter exactly if some byte is one.
pub classify-any :
    (bytes : List ℕ)
    → All IsByte bytes
    → classify bytes ≡ (any is_malformed bytes, any is_upper bytes)
unfolding classify
classify-any (b0 ∷ b1 ∷ b2 ∷ b3 ∷ b4 ∷ b5 ∷ b6 ∷ b7 ∷ bytes) h =
    let eight : List ℕ = b0 ∷ b1 ∷ b2 ∷ b3 ∷ b4 ∷ b5 ∷ b6 ∷ b7 ∷ [] in
    let all : All IsByte eight = (
      h.0,
      (
        h.1.0,
        (
          h.1.1.0,
          (h.1.1.1.0, (h.1.1.1.1.0, (h.1.1.1.1.1.0, (h.1.1.1.1.1.1.0, (h.1.1.1.1.1.1.1.0, tt))))),
        ),
      ),
    ) in
    let rest = classify-any bytes h.1.1.1.1.1.1.1.1 in
    λ i. (
      ((λ j. word_malformed-any eight all refl j || (rest j).0)
            ∙ sym (any-append is_malformed eight bytes))
          i,
      ((λ j. word_upper-any eight all refl j || (rest j).1) ∙ sym (any-append is_upper eight bytes))
          i,
    )
classify-any [] h = refl
classify-any (a ∷ []) h = tail-any (a ∷ [])
classify-any (a ∷ b ∷ []) h = tail-any (a ∷ b ∷ [])
classify-any (a ∷ b ∷ c ∷ []) h = tail-any (a ∷ b ∷ c ∷ [])
classify-any (a ∷ b ∷ c ∷ d ∷ []) h = tail-any (a ∷ b ∷ c ∷ d ∷ [])
classify-any (a ∷ b ∷ c ∷ d ∷ e ∷ []) h = tail-any (a ∷ b ∷ c ∷ d ∷ e ∷ [])
classify-any (a ∷ b ∷ c ∷ d ∷ e ∷ f ∷ []) h = tail-any (a ∷ b ∷ c ∷ d ∷ e ∷ f ∷ [])
classify-any (a ∷ b ∷ c ∷ d ∷ e ∷ f ∷ g ∷ []) h = tail-any (a ∷ b ∷ c ∷ d ∷ e ∷ f ∷ g ∷ [])
