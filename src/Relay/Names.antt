-- ===== src/Relay/Names.antt =====
-- crates/weaver-server/src/store/names.rs: the names of persons and machines, and those that are proposed.
-- A name is its bytes; the text that a name is made of is its characters, in lower case by the
-- standard library, which is a parameter.
pub mod Split
pub mod Tests
pub mod Proposed
use tunnel_weaver.Base.{
  ℕ, zero, suc, ◌+◌, ◌-◌, ◌/◌, ◌%◌, ◌==◌, leb, ltb, ◌&&◌, ◌||◌, not, if◌then◌else◌, Bool, true,
  false, List, [], ◌∷◌, ◌++◌, Option, none, some, length, take, is_empty, ascii, is_digit,
}
use tunnel_weaver.Relay.Host.{every}

abbrev pub person_machine_max : ℕ
person_machine_max = 15

abbrev pub is_lower : ℕ → Bool
is_lower b = leb b'a' b && leb b b'z'

unfoldable pub is_name_char : ℕ → Bool
unfolding is_digit
is_name_char b = is_lower b || is_digit b

unfoldable pub is_valid_person_or_machine : List ℕ → Bool
unfolding every is_name_char
is_valid_person_or_machine name =
    not (is_empty name) && (leb (length name) person_machine_max && every is_name_char name)

unfoldable pub one_of : List ℕ → ℕ → Bool
one_of [] c = false
one_of (d ∷ ds) c = c == d || one_of ds c

-- The rows of the table, in its order.
abbrev pub folds : List (List ℕ × ℕ)
folds =
    (ascii "àáâãäåāăą", b'a')
    ∷ (ascii "çćč", b'c')
    ∷ (ascii "èéêëēĕėęě", b'e')
    ∷ (ascii "ìíîïīį", b'i')
    ∷ (ascii "ñńň", b'n')
    ∷ (ascii "òóôõöøōő", b'o')
    ∷ (ascii "ùúûüūůűų", b'u')
    ∷ (ascii "ýÿ", b'y')
    ∷ (ascii "ß", b's')
    ∷ (ascii "æ", b'a')
    ∷ (ascii "œ", b'o')
    ∷ []

unfoldable pub fold_by : List (List ℕ × ℕ) → ℕ → Option ℕ
unfolding one_of
fold_by [] c = none
fold_by ((letters, letter) ∷ rows) c = if one_of letters c then some letter else fold_by rows c

unfoldable pub fold_ascii : ℕ → Option ℕ
unfolding is_name_char fold_by
fold_ascii c = if is_name_char c then some c else fold_by folds c

-- What has been pushed so far, and the characters to come.
unfoldable pub slug_of : List ℕ → List ℕ → List ℕ
unfolding fold_ascii
slug_of out [] = out
slug_of out (c ∷ cs) = elim (fold_ascii c) [
  | none ↦ slug_of out cs
  | some folded ↦
      let pushed = out ++ (folded ∷ []) in
      elim (length pushed == person_machine_max) [ true ↦ pushed | false ↦ slug_of pushed cs ]
]

module _ (to_lowercase : List ℕ → List ℕ) where
  unfoldable pub slugify : List ℕ → List ℕ → List ℕ
  unfolding slug_of
  slugify raw fallback =
      let out = slug_of [] (to_lowercase raw) in if is_empty out then fallback else out

  unfoldable pub slugify_person : List ℕ → List ℕ
  unfolding slugify
  slugify_person display_name = slugify display_name (ascii "person")

  unfoldable pub slugify_machine : List ℕ → List ℕ
  unfolding slugify
  slugify_machine raw_hostname = slugify raw_hostname (ascii "machine")

-- The decimal digits of a number, with at most `size` of them before the last: nine for a `u32`.
unfoldable pub decimal : ℕ → ℕ → List ℕ
decimal zero n = (b'0' + n % 10) ∷ []
decimal (suc size) n =
    let rest = decimal size (n / 10) in
    if ltb n 10 then (b'0' + n) ∷ [] else rest ++ ((b'0' + n % 10) ∷ [])

unfoldable pub numbered : List ℕ → ℕ → List ℕ
unfolding decimal
numbered base n =
    let suffix = decimal 9 n in take (person_machine_max - length suffix) base ++ suffix

-- The item of the iterator at an index.
unfoldable pub candidates : List ℕ → ℕ → List ℕ
unfolding numbered
candidates base zero = base
candidates base (suc i) = numbered base (i + 2)
