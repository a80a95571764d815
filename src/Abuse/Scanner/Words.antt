-- ===== src/Abuse/Scanner/Words.antt =====
-- crates/weaver-abuse/src/scanner.rs, `classify`: the bytes of a path in words of eight, the lowest first.
pub mod Lanes
pub mod Masks
pub mod Classes
use Prim.Native.Nat.{bit_and, bit_or, bit_xor}
use tunnel_weaver.Base.{
  ℕ, ◌+◌, ◌-◌, ◌*◌, ◌==◌, ltb, ◌||◌, not, Bool, true, false, List, [], ◌∷◌, u64, u64_max, sub64,
  is_upper,
}

abbrev pub ones : ℕ
ones = 0x0101_0101_0101_0101

abbrev pub highs : ℕ
highs = 0x8080_8080_8080_8080

abbrev pub dels : ℕ
dels = 0x7f7f_7f7f_7f7f_7f7f

-- `!x` on `u64`.
abbrev pub not64 : ℕ → ℕ
not64 x = u64_max - x

-- `from_le_bytes`.
abbrev pub le_word : List ℕ → ℕ
le_word [] = 0
le_word (b ∷ bs) = b + 256 * le_word bs

unfoldable pub ge_mask : ℕ → ℕ → ℕ
ge_mask x m = bit_and (sub64 (bit_or x highs) (u64 (ones * m))) highs

unfoldable pub eq_del_mask : ℕ → ℕ
eq_del_mask x = let y = bit_xor x dels in bit_and (bit_and (sub64 y ones) (not64 y)) highs

unfoldable pub word_malformed : ℕ → Bool
unfolding ge_mask eq_del_mask
word_malformed x =
    not (bit_and (bit_xor (ge_mask x 0x20) highs) (not64 (bit_and x highs)) == 0)
    || not (eq_del_mask x == 0)

unfoldable pub word_upper : ℕ → Bool
unfolding ge_mask
word_upper x =
    not (bit_and (bit_and (ge_mask x 0x41) (not64 (ge_mask x 0x5b))) (not64 (bit_and x highs)) == 0)

-- What one byte of the tail says.
abbrev pub is_malformed : ℕ → Bool
is_malformed b = ltb b 0x20 || b == 0x7f

unfoldable pub classify_tail : List ℕ → Bool × Bool
unfolding is_upper
classify_tail [] = (false, false)
classify_tail (b ∷ bs) =
    let (malformed, has_upper) = classify_tail bs in
    (is_malformed b || malformed, is_upper b || has_upper)

unfoldable pub classify : List ℕ → Bool × Bool
unfolding word_malformed word_upper classify_tail
classify (b0 ∷ b1 ∷ b2 ∷ b3 ∷ b4 ∷ b5 ∷ b6 ∷ b7 ∷ bytes) =
    let x = le_word (b0 ∷ b1 ∷ b2 ∷ b3 ∷ b4 ∷ b5 ∷ b6 ∷ b7 ∷ []) in
    let (malformed, has_upper) = classify bytes in
    (word_malformed x || malformed, word_upper x || has_upper)
classify bytes = classify_tail bytes
