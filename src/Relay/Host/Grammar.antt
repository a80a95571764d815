-- ===== src/Relay/Host/Grammar.antt =====
-- The values that name a host, and those that are refused.
use mathlib.Core.List.{append_assoc}
use tunnel_weaver.Base.{
  ℕ, ◌≡◌, ◌≤◌, ◌⊎◌, refl, ap, ◌∙◌, sym, subst, ◌==◌, ◌||◌, not, if◌then◌else◌, Bool, Bool-cases,
  inl, inr, true, false, List, [], ◌∷◌, ◌++◌, Option, Option-cases, none, some, length, is_empty,
  is_digit, is_alphanumeric, is_upper, arith,
}
use tunnel_weaver.Relay.Host.{
  split_at, is_literal_byte, is_name_byte, every, literal_port, literal_host, name_host, is_bracket,
  split_host, bad_port, checked, parse_host_value,
}

differs : (p : ℕ → Bool) (b c : ℕ) → p b ≡ true → p c ≡ false → (b == c) ≡ false
differs p b c t f = elim (Bool-cases (b == c)) [
  | inl e ↦
      let same : b ≡ c = ground arith in
      let both : p c ≡ true = ap p (sym same) ∙ t in absurd (ground arith)
  | inr e ↦ e
]

-- A name is split at no byte that it does not have.
split_at-absent :
    (p : ℕ → Bool) (c : ℕ) (before after : List ℕ)
    → p c ≡ false
    → every p before ≡ true
    → split_at c (before ++ (c ∷ after)) ≡ some (before, after)
unfolding split_at every
split_at-absent p c [] after q h = ground arith
split_at-absent p c (b ∷ bs) after q h =
    let both : (p b ≡ true) × (every p bs ≡ true) = ground arith in
    ground (arith, split_at-absent p c bs after q both.1, differs p b c both.0 q)

split_at-none :
    (p : ℕ → Bool) (c : ℕ) (bs : List ℕ) → p c ≡ false → every p bs ≡ true → split_at c bs ≡ none
unfolding split_at every
split_at-none p c [] q h = refl
split_at-none p c (b ∷ bs) q h =
    let both : (p b ≡ true) × (every p bs ≡ true) = ground arith in
    ground (arith, split_at-none p c bs q both.1, differs p b c both.0 q)

split_at-append :
    (c : ℕ) (bs before after : List ℕ)
    → split_at c bs ≡ some (before, after)
    → bs ≡ before ++ (c ∷ after)
unfolding split_at
split_at-append c [] before after h = absurd (cc)
split_at-append c (b ∷ bs) before after h = elim (Bool-cases (b == c)) [
  | inl e ↦
      let same : b ≡ c = ground arith in
      let parts : ([] ≡ before) × (bs ≡ after) = ground arith in
      λ i. parts.0 i ++ (same i ∷ parts.1 i)
  | inr e ↦ elim (Option-cases (split_at c bs)) [
    | inl q ↦ absurd (ground arith)
    | inr ((before', after'), q) ↦
        let parts : ((b ∷ before') ≡ before) × (after' ≡ after) = ground arith in
        ap (◌∷◌ b) (split_at-append c bs before' after' q) ∙ (λ i. parts.0 i ++ (c ∷ parts.1 i))
  ]
]

-- A port of one to five digits.
abbrev pub IsPort : List ℕ → Type 0
IsPort port = (1 ≤ length port) × (length port ≤ 5) × (every is_digit port ≡ true)

-- A name of the bytes that a name may have.
abbrev pub IsName : List ℕ → Type 0
IsName host = (1 ≤ length host) × (length host ≤ 255) × (every is_name_byte host ≡ true)

bad_port-IsPort : (port : List ℕ) → bad_port (some port) ≡ false → IsPort port
bad_port-IsPort [] h = absurd (cc)
bad_port-IsPort (b ∷ bs) h = ground arith

IsPort-bad_port : (port : List ℕ) → IsPort port → bad_port (some port) ≡ false
IsPort-bad_port [] p = absurd (omega arith)
IsPort-bad_port (b ∷ bs) p = ground arith

checked-name :
    (b : ℕ) (bs : List ℕ) (port : Option (List ℕ))
    → IsName (b ∷ bs)
    → bad_port port ≡ false
    → checked (some (b ∷ bs, port)) ≡ some (b ∷ bs)
checked-name b bs port n p = ground arith

-- A name is read back from itself, and from itself with a port.
pub parse_host_value-name :
    (host port : List ℕ)
    → IsName host
    → IsPort port
    → (parse_host_value host ≡ some host) × (parse_host_value (host ++ (b':' ∷ port)) ≡ some host)
unfolding parse_host_value split_host every is_name_byte is_alphanumeric is_upper is_digit
parse_host_value-name [] port n p = absurd (omega arith)
parse_host_value-name (b ∷ bs) port n p =
    let first : is_name_byte b ≡ true = ground arith in
    let plain = differs is_name_byte b b'[' first refl in
    let whole = split_at-none is_name_byte b':' (b ∷ bs) refl n.2 in
    let ported = split_at-absent is_name_byte b':' (b ∷ bs) port refl n.2 in
    (
      (λ i. checked (
            if plain i
            then literal_host (split_at b']' bs)
            else some (name_host (b ∷ bs) (whole i))))
          ∙ checked-name b bs none n refl,
      (λ i. checked (
            if plain i
            then literal_host (split_at b']' (bs ++ (b':' ∷ port)))
            else some (name_host (b ∷ bs ++ (b':' ∷ port)) (ported i))))
          ∙ checked-name b bs (some port) n (IsPort-bad_port port p),
    )

-- What the checks let through.
checked-whole :
    (host' : List ℕ) (port : Option (List ℕ)) (host : List ℕ)
    → checked (some (host', port)) ≡ some host
    → (host' ≡ host)
      × (1 ≤ length host')
      × (length host' ≤ 255)
      × ((is_bracket host' ≡ true) ⊎ (every is_name_byte host' ≡ true))
      × (bad_port port ≡ false)
checked-whole [] port host h = absurd (cc)
checked-whole (b ∷ bs) port host h = elim (Bool-cases (is_bracket (b ∷ bs))) [
  | inl e ↦ (ground arith, omega arith, ground arith, inl e, ground arith)
  | inr e ↦ (ground arith, omega arith, ground arith, inr (ground arith), ground arith)
]

abbrev pub IsWhole : List ℕ → List ℕ → Type 0
IsWhole raw host = (raw ≡ host) ⊎ ((port : List ℕ) × (raw ≡ host ++ (b':' ∷ port)) × IsPort port)

abbrev pub IsLiteral : List ℕ → Type 0
IsLiteral host =
    (literal : List ℕ) × (host ≡ b'[' ∷ literal ++ (b']' ∷ []))
    × (every is_literal_byte literal ≡ true)

-- What is read of a value.
abbrev pub IsRead : List ℕ → List ℕ → Type 0
IsRead raw host =
    IsWhole raw host × (1 ≤ length host) × (length host ≤ 255) × (IsName host ⊎ IsLiteral host)

literal-IsRead :
    (bs literal after host : List ℕ)
    → bs ≡ literal ++ (b']' ∷ after)
    → every is_literal_byte literal ≡ true
    → checked (literal_port literal after) ≡ some host
    → IsRead (b'[' ∷ bs) host
literal-IsRead bs literal [] host q e h =
    let seen = checked-whole (b'[' ∷ literal ++ (b']' ∷ [])) none host h in
    subst (IsRead (b'[' ∷ bs)) seen.0
      (inl (ap (◌∷◌ b'[') q), seen.1, seen.2, inr (literal, refl, e))
literal-IsRead bs literal (c ∷ port) host q e h = elim (Bool-cases (c == b':')) [
  | inl colon ↦
      let seen = checked-whole (b'[' ∷ literal ++ (b']' ∷ [])) (some port) host (rw colon at h) in
      let same : c ≡ b':' = ground arith in
      let joined : b'[' ∷ bs ≡ (b'[' ∷ literal ++ (b']' ∷ [])) ++ (b':' ∷ port) = ap (◌∷◌ b'[') (
        q
        ∙ (λ i. literal ++ (b']' ∷ same i ∷ port))
        ∙ sym (append_assoc literal (b']' ∷ []) (b':' ∷ port))) in
      subst (IsRead (b'[' ∷ bs)) seen.0
        (inr (port, joined, bad_port-IsPort port seen.4), seen.1, seen.2, inr (literal, refl, e))
  | inr other ↦ absurd (ground arith)
]

literal_host-IsRead :
    (bs host : List ℕ) (o : Option (List ℕ × List ℕ))
    → split_at b']' bs ≡ o
    → checked (literal_host o) ≡ some host
    → IsRead (b'[' ∷ bs) host
literal_host-IsRead bs host none q h = absurd (cc)
literal_host-IsRead bs host (some (literal, after)) q h =
    elim (Bool-cases (is_empty literal || not (every is_literal_byte literal))) [
      | inl bad ↦ absurd (ground arith)
      | inr good ↦
          literal-IsRead bs literal after host (split_at-append b']' bs literal after q)
            (ground arith) (rw good at h)
    ]

name-IsRead :
    (b : ℕ) (bs host : List ℕ) (o : Option (List ℕ × List ℕ))
    → (b == b'[') ≡ false
    → split_at b':' (b ∷ bs) ≡ o
    → checked (some (name_host (b ∷ bs) o)) ≡ some host
    → IsRead (b ∷ bs) host
name-IsRead b bs host none plain q h =
    let seen = checked-whole (b ∷ bs) none host h in
    subst (IsRead (b ∷ bs)) seen.0 (inl refl, seen.1, seen.2, inl (seen.1, seen.2, ground arith))
name-IsRead b bs host (some ([], port)) plain q h = absurd (cc)
name-IsRead b bs host (some (c ∷ cs, port)) plain q h =
    let seen = checked-whole (c ∷ cs) (some port) host h in
    let joined = split_at-append b':' (b ∷ bs) (c ∷ cs) port q in
    let first : b ≡ c = ground arith in
    subst (IsRead (b ∷ bs)) seen.0 (
      inr (port, joined, bad_port-IsPort port seen.4),
      seen.1,
      seen.2,
      inl (seen.1, seen.2, ground arith),
    )

-- Nothing of a value is passed over: what is read of it is the whole value, or stands in front of a colon
-- and a port of one to five digits, has 1 to 255 bytes, and is a name or a literal in brackets.
pub parse_host_value-IsRead :
    (raw host : List ℕ) → parse_host_value raw ≡ some host → IsRead raw host
unfolding parse_host_value split_host
parse_host_value-IsRead [] host h = absurd (cc)
parse_host_value-IsRead (b ∷ bs) host h = elim (Bool-cases (b == b'[')) [
  | inl e ↦
      let same : b ≡ b'[' = ground arith in
      subst (λ c. IsRead (c ∷ bs) host) (sym same)
        (literal_host-IsRead bs host (split_at b']' bs) refl (rw e at h))
  | inr e ↦ name-IsRead b bs host (split_at b':' (b ∷ bs)) e refl (rw e at h)
]
