-- ===== src/Mux/Connection/Api/Chunks.antt =====
-- The fragments of a message: what they are together, and how many.
use native.Mathlib.Nat.{le-div_iff_mul-le}
use tunnel_weaver.Base.{
  ℕ, zero, suc, ◌+◌, ◌-◌, ◌*◌, ◌/◌, ◌≡◌, ◌≤◌, refl, ap, ◌∙◌, List, [], ◌∷◌, ◌++◌, length, take,
  drop, arith, length-take, length-drop, take-append-drop, max, All,
}
use tunnel_weaver.Mux.Connection.Api.{chunks_from, fragments}

-- The bytes of a list of payloads.
abbrev pub total : List (List ℕ) → ℕ
total [] = 0
total (p ∷ ps) = length p + total ps

abbrev pub concat : List (List ℕ) → List ℕ
concat [] = []
concat (p ∷ ps) = p ++ concat ps

concat-chunks_from :
    (fuel n : ℕ) (xs : List ℕ) → 1 ≤ n → length xs ≤ fuel → concat (chunks_from fuel n xs) ≡ xs
unfolding chunks_from
concat-chunks_from fuel n [] hn h = refl
concat-chunks_from zero n (x ∷ xs) hn h = absurd (omega arith)
concat-chunks_from (suc fuel) n (x ∷ xs) hn h =
    ap (λ r. take n (x ∷ xs) ++ r)
      (concat-chunks_from fuel n (drop n (x ∷ xs)) hn (omega (arith, length-drop n (x ∷ xs))))
    ∙ take-append-drop n (x ∷ xs)

-- The fragments of a message are the message.
pub concat-fragments : (n : ℕ) (msg : List ℕ) → 1 ≤ n → concat (fragments n msg) ≡ msg
concat-fragments n [] hn = refl
concat-fragments n (x ∷ xs) hn = concat-chunks_from _ n (x ∷ xs) hn (omega arith)

total-chunks_from :
    (fuel n : ℕ) (xs : List ℕ)
    → 1 ≤ n
    → length xs ≤ fuel
    → total (chunks_from fuel n xs) ≡ length xs
unfolding chunks_from
total-chunks_from fuel n [] hn h = refl
total-chunks_from zero n (x ∷ xs) hn h = absurd (omega arith)
total-chunks_from (suc fuel) n (x ∷ xs) hn h =
    let shorter : length (drop n (x ∷ xs)) ≤ fuel = omega (arith, length-drop n (x ∷ xs)) in
    omega (
      arith,
      total-chunks_from fuel n (drop n (x ∷ xs)) hn shorter,
      length-take n (x ∷ xs),
      length-drop n (x ∷ xs),
    )

pub total-fragments : (n : ℕ) (msg : List ℕ) → 1 ≤ n → total (fragments n msg) ≡ length msg
total-fragments n [] hn = refl
total-fragments n (x ∷ xs) hn = total-chunks_from _ n (x ∷ xs) hn (omega arith)

-- One more fragment of `n` bytes, where `d` bytes are left behind it.
one_more : (k n l d : ℕ) → 1 ≤ n → d ≡ suc l - n → k * n ≤ d + n - 1 → suc k * n ≤ suc l + n - 1
one_more zero n l d hn e h = omega arith
one_more (suc k) n l d hn e h = omega arith

length-chunks_from :
    (fuel n : ℕ) (xs : List ℕ) → 1 ≤ n → length (chunks_from fuel n xs) * n ≤ length xs + n - 1
unfolding chunks_from
length-chunks_from fuel n [] hn = omega arith
length-chunks_from zero n (x ∷ xs) hn = omega arith
length-chunks_from (suc fuel) n (x ∷ xs) hn =
    one_more _ n (length xs) _ hn (length-drop n (x ∷ xs))
      (length-chunks_from fuel n (drop n (x ∷ xs)) hn)

-- There are no more fragments than `send` counts on.
pub length-fragments :
    (n : ℕ) (msg : List ℕ) → 1 ≤ n → length (fragments n msg) ≤ max ((length msg + n - 1) / n) 1
length-fragments n [] hn = omega arith
length-fragments n (x ∷ xs) hn =
    omega (arith, (le-div_iff_mul-le hn).1 (length-chunks_from (suc (length xs)) n (x ∷ xs) hn))

-- There is a first fragment.
pub fragments-cons :
    (n : ℕ) (msg : List ℕ) → (x : List ℕ) × (rest : List (List ℕ)) × (fragments n msg ≡ x ∷ rest)
unfolding chunks_from
fragments-cons n [] = ([], [], refl)
fragments-cons n (x ∷ xs) = (_, _, refl)

chunks_from-All {ℓ} :
    (P : List ℕ → Type ℓ) (fuel n : ℕ) (xs : List ℕ)
    → ((chunk : List ℕ) → length chunk ≤ n → P chunk)
    → All P (chunks_from fuel n xs)
unfolding chunks_from
chunks_from-All P fuel n [] h = tt
chunks_from-All P zero n (x ∷ xs) h = tt
chunks_from-All P (suc fuel) n (x ∷ xs) h =
    (h _ (omega (arith, length-take n (x ∷ xs))), chunks_from-All P fuel n (drop n (x ∷ xs)) h)

-- No fragment is longer than asked for.
pub fragments-All {ℓ} :
    (P : List ℕ → Type ℓ) (n : ℕ) (msg : List ℕ)
    → 1 ≤ n
    → ((chunk : List ℕ) → length chunk ≤ n → P chunk)
    → All P (fragments n msg)
fragments-All P n [] hn h = (h [] (omega arith), tt)
fragments-All P n (x ∷ xs) hn h = chunks_from-All P _ n (x ∷ xs) h
