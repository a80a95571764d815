-- ===== src/Relay/Machines/Strip.antt =====
-- The labels of a machine in front of a hostname.
use tunnel_weaver.Base.{
  ℕ, ==_iff, ◌++◌, true, false, List, [], ◌∷◌, none, some, arith, ◌≡◌, refl, sym, ap, ◌∙◌, inl, inr,
  Option-cases, bytes_eq, bytes_eq_iff, starts_with, to_ascii_lowercase,
}
use mathlib.Core.List.{append_assoc}
use tunnel_weaver.Relay.Registry.{flat_hostname}
use tunnel_weaver.Relay.Names.{is_valid_person_or_machine}
use tunnel_weaver.Relay.Names.Split.{split_unique, flat_hostname_valid, name_lem}
use tunnel_weaver.Relay.Control.{is_valid_service_name}
use tunnel_weaver.Relay.Machines.Hostnames.{label, strip_prefix}

starts_with-append : (xs ys : List ℕ) → strip_prefix xs (xs ++ ys) ≡ some ys
unfolding strip_prefix starts_with
starts_with-append [] ys = refl
starts_with-append (x ∷ xs) ys = ground (arith, ==_iff x x, starts_with-append xs ys)

-- What is stripped stood in front.
strip_prefix-some : (xs text rest : List ℕ) → strip_prefix xs text ≡ some rest → text ≡ xs ++ rest
unfolding strip_prefix starts_with
strip_prefix-some [] text rest h = ground arith
strip_prefix-some (x ∷ xs) [] rest h = absurd (ground arith)
strip_prefix-some (x ∷ xs) (b ∷ text) rest h =
    ground (arith, ==_iff x b, strip_prefix-some xs text rest)

label-append :
    (person machine rest : List ℕ)
    → label person machine ++ rest ≡ person ++ (b'-' ∷ machine ++ (b'-' ∷ rest))
label-append person machine rest =
    append_assoc person (b'-' ∷ machine ++ (b'-' ∷ [])) rest
    ∙ ap (λ t. person ++ (b'-' ∷ t)) (append_assoc machine (b'-' ∷ []) rest)

-- What stands behind the label of a machine.
abbrev pub behind : List ℕ → List ℕ → List ℕ
behind service root = service ++ (b'.' ∷ to_ascii_lowercase root)

-- Two names of a machine: the hostname of a service splits behind the one, and not behind the other.
module _ (person current next service root : List ℕ) (p : is_valid_person_or_machine person ≡ true)
    (c : is_valid_person_or_machine current ≡ true) (n : is_valid_person_or_machine next ≡ true)
    (s : is_valid_service_name service ≡ true) where
  pub strip_prefix-flat_hostname :
      (strip_prefix (label person current) (flat_hostname person current service root)
        ≡ some (behind service root))
      × (flat_hostname person next service root ≡ label person next ++ behind service root)
  strip_prefix-flat_hostname =
      let whole =
        flat_hostname_valid person current service root p c s
        ∙ sym (label-append person current (behind service root)) in
      (
        ap (strip_prefix (label person current)) whole
            ∙ starts_with-append (label person current) (behind service root),
        flat_hostname_valid person next service root p n s
            ∙ sym (label-append person next (behind service root)),
      )

  pub strip_prefix_stays :
      bytes_eq current next ≡ false
      → strip_prefix (label person current) (flat_hostname person next service root) ≡ none
  strip_prefix_stays apart =
      elim (Option-cases
        (strip_prefix (label person current) (flat_hostname person next service root))) [
          | inl e ↦ e
          | inr (rest, e) ↦
              let whole =
                sym (flat_hostname_valid person next service root p n s)
                ∙ strip_prefix-some (label person current) _ rest e
                ∙ label-append person current rest in
              let (same, machines) =
                split_unique b'-' person person _ _ (name_lem person p).1 (name_lem person p).1
                  whole in
              let (names, tail) =
                split_unique b'-' next current _ _ (name_lem next n).1 (name_lem current c).1
                  machines in
              absurd (ground (arith, bytes_eq_iff current next))
        ]
