-- ===== src/Abuse/Altcha/Tests.antt =====
-- The theorems on the proof of work, with libraries that make small keys: the digest is the key in front
-- of the text, hex is the text itself, and a derived key repeats the last byte of the password.
use tunnel_weaver.Base.{
  ℕ, ◌≡◌, ◌↔◌, refl, true, selected, ◌++◌, List, [], ◌∷◌, none, some, ok, ascii, drop, arith,
  bytes_eq, bytes_key, lookup, starts_with, to_ascii_lowercase, to_lower, is_upper, is_hex_digit,
  is_digit,
}
use tunnel_weaver.Relay.Host.{eq_ignore_ascii_case, every}
use tunnel_weaver.Abuse.Altcha.{Challenge, Solution, Libraries, supported_algorithm}
use tunnel_weaver.Abuse.Altcha.Pow.{
  CreateRequest, Verified, SolveLimits, create_challenge, verify_solution, solve_within,
  try_solve_challenge, is_supported, sign, key_prefix_matches, build_password, solve_from,
  is_hopeless,
}
use tunnel_weaver.Abuse.Altcha.Pow.Accepts.{Accepts, verify_solution_iff}
use tunnel_weaver.Abuse.Altcha.Pow.Solved.{
  to_verify, Answers, solve_within-Answers, verify_solution-try_solve_challenge,
}
use tunnel_weaver.Abuse.Altcha.Clients.{NewAltchaClient, altcha_client_create}
use tunnel_weaver.Abuse.Altcha.Clients.Internal.{IsRegistry, IsRegistry-create}
use tunnel_weaver.Abuse.Altcha.Consume.{ConsumeRequest, Tables}
use tunnel_weaver.Abuse.Altcha.Events.{Event, steps}
use tunnel_weaver.Abuse.Altcha.Events.Registered.{steps-IsRegistry}

abbrev toy : Libraries (List ℕ)
toy = record {
  as_str = λ v. some v;
  from_str = λ text. text;
  canonical_json = λ params. params.nonce;
  hmac_sha256 = λ key text. key ++ text;
  pbkdf2 = λ password salt cost size. drop 5 password ++ drop 5 password;
  hex_encode = λ bytes. bytes;
  hex_decode = λ text. some text;
}

-- A challenge to find the counter whose byte is the digit 2, twice.
abbrev wanted : CreateRequest (List ℕ)
wanted = record {
  algorithm = supported_algorithm;
  cost = 1;
  key_length = 2;
  key_prefix = ascii "22";
  ttl_secs = 60;
  secret = ascii "s";
  context = (ascii "flow", ascii "f") ∷ (ascii "purpose", ascii "p") ∷ [];
  nonce = ascii "nn";
  salt = ascii "t";
  now_ms = 5000;
}

abbrev challenge : Challenge (List ℕ)
challenge = create_challenge toy wanted

abbrev solution : Solution
solution = record { counter = 50; derived_key = ascii "22" }

abbrev limits : SolveLimits
limits = record { max_cost = 10; max_work = 300 }

verify_solution-try_solve_challenge_example :
    verify_solution toy (to_verify toy wanted solution 6000 (ascii "p") (ascii "f"))
    ≡ ok (record { nonce = ascii "nn"; purpose = ascii "p"; flow = ascii "f" })
unfolding create_challenge try_solve_challenge is_supported eq_ignore_ascii_case bytes_eq
    to_ascii_lowercase to_lower is_upper every is_hex_digit is_digit is_hopeless solve_within
    solve_from key_prefix_matches build_password starts_with sign lookup
verify_solution-try_solve_challenge_example =
    verify_solution-try_solve_challenge toy wanted limits solution 6000 refl refl
      (λ positive. omega arith)

solve_within-Answers_example :
    Answers toy challenge.parameters (ascii "nn") (ascii "t") 60 (solve_within toy challenge 60)
unfolding create_challenge
solve_within-Answers_example =
    solve_within-Answers toy challenge 60 (ascii "nn") (ascii "t") refl refl

abbrev verified : Verified
verified = record { nonce = ascii "nn"; purpose = ascii "p"; flow = ascii "f" }

verify_solution_iff_example :
    (verify_solution toy (to_verify toy wanted solution 6000 (ascii "p") (ascii "f")) ≡ ok verified)
    ↔ Accepts toy (to_verify toy wanted solution 6000 (ascii "p") (ascii "f")) verified
verify_solution_iff_example =
    verify_solution_iff toy (to_verify toy wanted solution 6000 (ascii "p") (ascii "f")) verified

-- The client whose secret signs the challenge, and a table for one spent proof.
abbrev client : NewAltchaClient
client = record {
  public_key = ascii "ak";
  secret = ascii "s";
  algorithm = supported_algorithm;
  cost = 1;
  key_length = 2;
  key_prefix = ascii "22";
  ttl_secs = 60;
  service_id = none;
}

abbrev tables : Tables
tables = record { clients = (altcha_client_create [] client 1000).0; proofs = []; cap = 1 }

abbrev handed_in : ℕ → ConsumeRequest (List ℕ)
handed_in now_ms = record {
  client = ascii "ak";
  payload = record { challenge = challenge; solution = solution };
  purpose = ascii "p";
  flow = ascii "f";
  now_ms = now_ms;
}

-- What happens after the proof was accepted.
abbrev between : List (Event (List ℕ))
between =
    Event.sweep 7 7500
    ∷ Event.rotate (ascii "ak") (ascii "s2") 8000
    ∷ Event.delete_services (λ id. true) 8500
    ∷ Event.submit (handed_in 9000) []
    ∷ []

tables-IsRegistry : IsRegistry tables.clients
unfolding selected
tables-IsRegistry =
    IsRegistry-create [] client 1000
      (record { one_key = λ key. omega arith; one_internal = omega arith })

abbrev kept : List (Event (List ℕ))
kept =
    Event.submit (handed_in 6000) []
    ∷ Event.create client 7000
    ∷ Event.revoke (ascii "ak") 8000
    ∷ []

steps-IsRegistry_example : IsRegistry (steps toy tables kept).clients
steps-IsRegistry_example = steps-IsRegistry toy kept tables (tt, (tt, (tt, tt))) tables-IsRegistry
