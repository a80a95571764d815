-- ===== src/Relay/Names/Tests.antt =====
-- The theorems on names, at concrete ones.
use tunnel_weaver.Base.{
  ◌≡◌, ◌↔◌, ◌≤◌, refl, true, false, ascii, length, to_ascii_lowercase, is_digit,
}
use tunnel_weaver.Relay.Host.{every}
use tunnel_weaver.Relay.Control.{is_valid_service_name, split, every_run}
use tunnel_weaver.Relay.Control.ServiceName.{is_dashed, is_valid_service_name_iff}
use tunnel_weaver.Relay.Names.{
  is_name_char, is_valid_person_or_machine, candidates, slugify_person, slugify_machine,
}
use tunnel_weaver.Relay.Names.Split.{flat_hostname_injective}
use tunnel_weaver.Relay.Names.Proposed.{slugify_proposes}

flat_hostname_injective_example :
    (ascii "poc" ≡ ascii "poc")
    × (ascii "laptop" ≡ ascii "laptop")
    × (ascii "web-api" ≡ ascii "web-api")
    × (to_ascii_lowercase (ascii "example.com") ≡ to_ascii_lowercase (ascii "example.com"))
unfolding is_valid_person_or_machine is_name_char is_digit every is_valid_service_name split
    every_run
flat_hostname_injective_example =
    flat_hostname_injective (ascii "poc") (ascii "laptop") (ascii "web-api") (ascii "example.com")
      (ascii "poc") (ascii "laptop") (ascii "web-api") (ascii "example.com") refl refl refl refl
      refl refl refl

-- An accent is dropped, and the letters are in lower case already.
slugify_proposes_example :
    (is_valid_person_or_machine (candidates (slugify_person (λ text. text) (ascii "rémy b.")) 3)
      ≡ true)
    × (is_valid_person_or_machine (candidates (slugify_machine (λ text. text) (ascii "rémy b.")) 3)
        ≡ true)
slugify_proposes_example = slugify_proposes (λ text. text) (ascii "rémy b.") 3

is_valid_service_name_iff_example :
    (is_valid_service_name (ascii "web-api") ≡ true)
    ↔ ((length (ascii "web-api") ≤ 31) × (is_dashed false (ascii "web-api") ≡ true))
is_valid_service_name_iff_example = is_valid_service_name_iff (ascii "web-api")
