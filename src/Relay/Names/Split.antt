-- ===== src/Relay/Names/Split.antt =====
-- A hostname is split at its first two dashes and at the dot behind them.
use tunnel_weaver.Base.{
  ℕ, ◌+◌, ◌==◌, ◌≤◌, ◌||◌, not, Bool, true, false, List, [], ◌∷◌, ◌++◌, length, is_digit, is_upper,
  to_lower, to_ascii_lowercase, arith, ◌≡◌, refl, sym, ◌∙◌, length-append,
}
use tunnel_weaver.Relay.Registry.{flat_hostname}
use tunnel_weaver.Relay.Host.{every}
use tunnel_weaver.Relay.Names.{is_name_char, is_valid_person_or_machine}
use tunnel_weaver.Relay.Control.{is_valid_service_name}
use tunnel_weaver.Relay.Control.ServiceName.{is_valid_service_name_iff, every-is_dashed}

abbrev pub is_not : ℕ → ℕ → Bool
is_not c b = not (b == c)

-- What stands before and behind the first separator is determined.
pub split_unique :
    (c : ℕ) (xs ys us vs : List ℕ)
    → every (is_not c) xs ≡ true
    → every (is_not c) ys ≡ true
    → xs ++ (c ∷ us) ≡ ys ++ (c ∷ vs)
    → (xs ≡ ys) × (us ≡ vs)
unfolding every
split_unique c [] [] us vs p q e = ground arith
split_unique c [] (y ∷ ys) us vs p q e = ground arith
split_unique c (x ∷ xs) [] us vs p q e = ground arith
split_unique c (x ∷ xs) (y ∷ ys) us vs p q e = ground (arith, split_unique c xs ys us vs)

every_weaker :
    (p q : ℕ → Bool)
    → ((b : ℕ) → p b ≡ true → q b ≡ true)
    → (bs : List ℕ) → every p bs ≡ true
    → every q bs ≡ true
unfolding every
every_weaker p q h [] e = refl
every_weaker p q h (b ∷ bs) e = ground (arith, h b, every_weaker p q h bs)

abbrev is_label_char : ℕ → Bool
is_label_char b = is_name_char b || (b == b'-')

lowercase_lem : (bs : List ℕ) → every is_label_char bs ≡ true → to_ascii_lowercase bs ≡ bs
unfolding every is_name_char to_ascii_lowercase to_lower is_upper is_digit
lowercase_lem [] h = refl
lowercase_lem (b ∷ bs) h = ground (arith, lowercase_lem bs)

length-lowercase : (bs : List ℕ) → length (to_ascii_lowercase bs) ≡ length bs
unfolding to_ascii_lowercase
length-lowercase [] = refl
length-lowercase (b ∷ bs) = omega (arith, length-lowercase bs)

-- What a valid name, and a valid service name, is made of.
pub name_lem :
    (name : List ℕ)
    → is_valid_person_or_machine name ≡ true
    → (to_ascii_lowercase name ≡ name) × (every (is_not b'-') name ≡ true) × (length name ≤ 15)
unfolding is_valid_person_or_machine is_name_char is_digit
name_lem name h =
    let chars : every is_name_char name ≡ true = ground arith in
    (
      lowercase_lem name (every_weaker is_name_char is_label_char (λ b e. ground arith) name chars),
      every_weaker is_name_char (is_not b'-') (λ b e. ground arith) name chars,
      ground arith,
    )

service_lem :
    (name : List ℕ)
    → is_valid_service_name name ≡ true
    → (to_ascii_lowercase name ≡ name) × (every (is_not b'.') name ≡ true) × (length name ≤ 31)
unfolding is_name_char is_digit
service_lem name h =
    let (short, dashed) = (is_valid_service_name_iff name).0 h in
    let chars = every-is_dashed false name dashed in
    (
      lowercase_lem name chars,
      every_weaker is_label_char (is_not b'.') (λ b e. ground arith) name chars,
      short,
    )

pub flat_hostname_valid :
    (person machine service root : List ℕ)
    → is_valid_person_or_machine person ≡ true
    → is_valid_person_or_machine machine ≡ true
    → is_valid_service_name service ≡ true
    → flat_hostname person machine service root
      ≡ person ++ (b'-' ∷ machine ++ (b'-' ∷ service ++ (b'.' ∷ to_ascii_lowercase root)))
unfolding flat_hostname
flat_hostname_valid person machine service root p m s =
    rw ((name_lem person p).0, (name_lem machine m).0, (service_lem service s).0) refl

-- No two services share a hostname: the hostname of valid names determines the person, the machine and
-- the service, and the root up to the case of its letters.
pub flat_hostname_injective :
    (person machine service root person' machine' service' root' : List ℕ)
    → is_valid_person_or_machine person ≡ true
    → is_valid_person_or_machine machine ≡ true
    → is_valid_service_name service ≡ true
    → is_valid_person_or_machine person' ≡ true
    → is_valid_person_or_machine machine' ≡ true
    → is_valid_service_name service' ≡ true
    → flat_hostname person machine service root ≡ flat_hostname person' machine' service' root'
    → (person ≡ person')
      × (machine ≡ machine')
      × (service ≡ service')
      × (to_ascii_lowercase root ≡ to_ascii_lowercase root')
flat_hostname_injective person machine service root person' machine' service' root' p m s p' m' s'
      e =
    let whole =
      sym (flat_hostname_valid person machine service root p m s)
      ∙ e
      ∙ flat_hostname_valid person' machine' service' root' p' m' s' in
    let (persons, rest) =
      split_unique b'-' person person' _ _ (name_lem person p).1 (name_lem person' p').1 whole in
    let (machines, tail) =
      split_unique b'-' machine machine' _ _ (name_lem machine m).1 (name_lem machine' m').1 rest in
    let (services, roots) =
      split_unique b'.' service service' _ _ (service_lem service s).1 (service_lem service' s').1
        tail in
    (persons, machines, services, roots)

-- The label in front of the root fits the 63 bytes that DNS leaves it.
pub flat_hostname_fits :
    (person machine service root : List ℕ)
    → is_valid_person_or_machine person ≡ true
    → is_valid_person_or_machine machine ≡ true
    → is_valid_service_name service ≡ true
    → length (flat_hostname person machine service root) ≤ 63 + 1 + length root
flat_hostname_fits person machine service root p m s =
    let base = to_ascii_lowercase root in
    rw (flat_hostname_valid person machine service root p m s) (
      omega (
        arith,
        length-append person (b'-' ∷ machine ++ (b'-' ∷ service ++ (b'.' ∷ base))),
        length-append machine (b'-' ∷ service ++ (b'.' ∷ base)),
        length-append service (b'.' ∷ base),
        (name_lem person p).2,
        (name_lem machine m).2,
        (service_lem service s).2,
        length-lowercase root,
      ))
