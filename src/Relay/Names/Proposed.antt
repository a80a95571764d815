-- ===== src/Relay/Names/Proposed.antt =====
-- The names that are proposed for a person or a machine.
use tunnel_weaver.Base.{
  ℕ, zero, suc, ◌+◌, ◌-◌, ◌/◌, ◌%◌, ◌==◌, ◌≤◌, ◌<◌, ltb, ◌&&◌, Bool, true, List, [], ◌∷◌, ◌++◌,
  some, length, take, is_empty, is_digit, arith, ◌≡◌, refl, length-append, length-take, Bool-cases,
  Option-cases, inl, inr, ascii,
}
use tunnel_weaver.Relay.Host.{every}
use tunnel_weaver.Relay.Names.{
  is_name_char, is_valid_person_or_machine, fold_by, folds, fold_ascii, slug_of, slugify,
  slugify_person, slugify_machine, decimal, numbered, candidates,
}

every-append :
    (p : ℕ → Bool) (xs ys : List ℕ)
    → every p xs ≡ true
    → every p ys ≡ true
    → every p (xs ++ ys) ≡ true
unfolding every
every-append p [] ys h k = k
every-append p (x ∷ xs) ys h k = ground (arith, every-append p xs ys)

every-take : (p : ℕ → Bool) (n : ℕ) (xs : List ℕ) → every p xs ≡ true → every p (take n xs) ≡ true
unfolding every
every-take p zero xs h = refl
every-take p (suc n) [] h = refl
every-take p (suc n) (x ∷ xs) h = ground (arith, every-take p n xs)

unfoldable every_letter : List (List ℕ × ℕ) → Bool
every_letter [] = true
every_letter ((letters, letter) ∷ rows) = is_name_char letter && every_letter rows

fold_by-is_name_char :
    (rows : List (List ℕ × ℕ)) (c d : ℕ)
    → every_letter rows ≡ true
    → fold_by rows c ≡ some d
    → is_name_char d ≡ true
unfolding fold_by every_letter
fold_by-is_name_char [] c d k h = absurd (cc)
fold_by-is_name_char ((letters, letter) ∷ rows) c d k h =
    ground (arith, fold_by-is_name_char rows c d)

fold_ascii-is_name_char : (c d : ℕ) → fold_ascii c ≡ some d → is_name_char d ≡ true
unfolding fold_ascii
fold_ascii-is_name_char c d h = elim (Bool-cases (is_name_char c)) [
  | inl e ↦ ground arith
  | inr e ↦
      fold_by-is_name_char folds c d (unfold every_letter is_name_char is_digit in refl) (rw e at h)
]

slug_of_lem :
    (cs out : List ℕ)
    → every is_name_char out ≡ true
    → length out < 15
    → (every is_name_char (slug_of out cs) ≡ true) × (length (slug_of out cs) ≤ 15)
unfolding slug_of
slug_of_lem [] out h lt = (h, omega arith)
slug_of_lem (c ∷ cs) out h lt = elim (Option-cases (fold_ascii c)) [
  | inl e ↦ rw (slug_of, e) (slug_of_lem cs out h lt)
  | inr (d, e) ↦
      let pushed = out ++ (d ∷ []) in
      let names : every is_name_char pushed ≡ true =
        every-append is_name_char out (d ∷ []) h
          (unfold every in ground (arith, fold_ascii-is_name_char c d e)) in
      let longer : length pushed ≡ length out + 1 = length-append out (d ∷ []) in
      rw (slug_of, e)
        (elim (Bool-cases (length pushed == 15)) [
          | inl f ↦ rw f (names, omega (arith, longer))
          | inr f ↦ rw f (slug_of_lem cs pushed names (ground (arith, longer)))
        ])
]

decimal_lem :
    (size n : ℕ)
    → (every is_name_char (decimal size n) ≡ true)
      × (1 ≤ length (decimal size n))
      × (length (decimal size n) ≤ size + 1)
unfolding decimal every
decimal_lem zero n = (unfold is_name_char is_digit in ground arith, omega arith, omega arith)
decimal_lem (suc size) n =
    let (names, some_digit, few) = decimal_lem size (n / 10) in
    let last = (b'0' + n % 10) ∷ [] in
    let name : every is_name_char last ≡ true = unfold is_name_char is_digit in ground arith in
    let both = every-append is_name_char (decimal size (n / 10)) last names name in
    elim (Bool-cases (ltb n 10)) [
      | inl e ↦ rw e (unfold is_name_char is_digit in ground arith, omega arith, omega arith)
      | inr e ↦ rw e (
        both,
        omega (arith, length-append (decimal size (n / 10)) last),
        omega (arith, few, length-append (decimal size (n / 10)) last),
      )
    ]

is_valid_lem :
    (name : List ℕ)
    → every is_name_char name ≡ true
    → 1 ≤ length name
    → length name ≤ 15
    → is_valid_person_or_machine name ≡ true
unfolding is_valid_person_or_machine
is_valid_lem [] h lo hi = absurd (omega arith)
is_valid_lem (b ∷ bs) h lo hi = ground (arith, h)

numbered-is_valid :
    (base : List ℕ) (n : ℕ)
    → is_valid_person_or_machine base ≡ true
    → is_valid_person_or_machine (numbered base n) ≡ true
unfolding numbered
numbered-is_valid base n h =
    let suffix = decimal 9 n in
    let (names, some_digit, few) = decimal_lem 9 n in
    let front = take (15 - length suffix) base in
    let fits = length-append front suffix in
    let base_names : every is_name_char base ≡ true =
      unfold is_valid_person_or_machine in ground (arith, h) in
    is_valid_lem (front ++ suffix)
      (every-append is_name_char front suffix
        (every-take is_name_char (15 - length suffix) base base_names) names)
      (omega (arith, fits, some_digit))
      (omega (arith, fits, few, length-take (15 - length suffix) base))

-- Every name that is tried in place of a valid one is valid: the number behind it fits, and brings no dash.
pub candidates-is_valid :
    (base : List ℕ) (i : ℕ)
    → is_valid_person_or_machine base ≡ true
    → is_valid_person_or_machine (candidates base i) ≡ true
unfolding candidates
candidates-is_valid base zero h = h
candidates-is_valid base (suc i) h = numbered-is_valid base (i + 2) h

slugify-is_valid :
    (to_lowercase : List ℕ → List ℕ) (raw fallback : List ℕ)
    → is_valid_person_or_machine fallback ≡ true
    → is_valid_person_or_machine (slugify to_lowercase raw fallback) ≡ true
unfolding slugify
slugify-is_valid to_lowercase raw fallback h =
    let out = slug_of [] (to_lowercase raw) in
    let (names, short) = slug_of_lem (to_lowercase raw) [] (unfold every in refl) (omega arith) in
    elim (Bool-cases (is_empty out)) [
      | inl e ↦ rw e h
      | inr e ↦ rw e (is_valid_lem out names (ground arith) short)
    ]

-- Whatever text an account or a host gives, the names proposed for the person and the machine are valid,
-- and so is every numbered one.
pub slugify_proposes :
    (to_lowercase : List ℕ → List ℕ) (raw : List ℕ) (i : ℕ)
    → (is_valid_person_or_machine (candidates (slugify_person to_lowercase raw) i) ≡ true)
      × (is_valid_person_or_machine (candidates (slugify_machine to_lowercase raw) i) ≡ true)
unfolding slugify_person slugify_machine
slugify_proposes to_lowercase raw i = (
  candidates-is_valid (slugify to_lowercase raw (ascii "person")) i (
      slugify-is_valid to_lowercase raw (ascii "person")
        (unfold is_valid_person_or_machine is_name_char is_digit every in refl)),
  candidates-is_valid (slugify to_lowercase raw (ascii "machine")) i (
      slugify-is_valid to_lowercase raw (ascii "machine")
        (unfold is_valid_person_or_machine is_name_char is_digit every in refl)),
)
