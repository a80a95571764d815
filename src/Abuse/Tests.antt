-- ===== src/Abuse/Tests.antt =====
-- The theorems on the rate limits and the scanner, at concrete requests.
use tunnel_weaver.Base.{
  ℕ, ◌+◌, ◌≤◌, ◌≡◌, ◌↔◌, refl, true, List, [], ◌∷◌, some, ok, All, IsByte, ascii, bytes_eq,
  starts_with, is_upper, lookup, arith,
}
use tunnel_weaver.Abuse.Gcra.{Gcra, Quota, Outcome, Charge, tolerance_ms, cost_ms, emission_ms, new}
use tunnel_weaver.Abuse.Gcra.Limit.{spent_bound, spent}
use tunnel_weaver.Abuse.Gcra.Bucket.{Bucket, checks, pours, checks-eq-pours}
use tunnel_weaver.Abuse.Key.{Key, KeyKind, Fingerprint, get, code}
use tunnel_weaver.Abuse.Policy.{Policy, StoreErrorPolicy, RouteTable, relay_web, get_policy}
use tunnel_weaver.Abuse.Store.{Db, Row, Rows, row_of, row_key, db_store, abuse_sweep, charge_one}
use tunnel_weaver.Abuse.Store.Charges.{is_charged, alone, abuse_sweep-charge_one}
use tunnel_weaver.Abuse.Gate.{Gate, admit, select}
use tunnel_weaver.Abuse.Gate.Longest.{IsAdmitted}
use tunnel_weaver.Abuse.Gate.Admission.{admit-db_store}
use tunnel_weaver.Abuse.Pass.{RequestContext, Decision, evaluate}
use tunnel_weaver.Abuse.Pass.Order.{passes, evaluate-block}
use tunnel_weaver.Abuse.Scanner.{ScanVerdict, inspect}
use tunnel_weaver.Abuse.Scanner.Verdicts.{rules, inspect-rules}
use tunnel_weaver.Abuse.Scanner.Words.{classify, is_malformed}
use tunnel_weaver.Abuse.Scanner.Words.Classes.{classify-any}
use tunnel_weaver.Abuse.Scanner.Words.Lanes.{any}
use tunnel_weaver.Abuse.Surface.{Scheme, Host, is_exempt, before_query}

-- One request a second, and two at once.
abbrev pair : Quota
pair = record { burst = 2; refill = record { units = 1; per_ms = 1000 } }

-- A limiter whose debt reaches to the fifth second.
abbrev full : Gcra
full = record { tat_ms = some 5000 }

spent_bound_example :
    1000 + spent new pair 9000 ((1000, 1) ∷ (1001, 1) ∷ (1002, 1) ∷ [])
    ≤ 1002 + tolerance_ms pair + cost_ms pair 1
unfolding tolerance_ms cost_ms emission_ms
spent_bound_example =
    spent_bound new pair 9000 1 1000 1002 ((1000, 1) ∷ (1001, 1) ∷ (1002, 1) ∷ []) (omega arith)
      (
        omega arith,
        omega arith,
        omega arith,
        (omega arith, omega arith, omega arith, (omega arith, omega arith, omega arith, tt)),
      )
      (omega arith)

abbrev requests : List (ℕ × ℕ)
requests = (1000, 1) ∷ (1001, 1) ∷ (1002, 1) ∷ []

abbrev empty_bucket : Bucket
empty_bucket = record { level = 0; seen = 1000 }

checks-eq-pours_example : checks new pair 9000 requests ≡ pours empty_bucket pair requests
unfolding new tolerance_ms cost_ms emission_ms
checks-eq-pours_example =
    checks-eq-pours empty_bucket new pair 9000 requests (record { same = refl })
      (omega arith, omega arith, (omega arith, omega arith, (omega arith, omega arith, tt)))

-- A host and its network, and a database that knows the host.
abbrev host_key : Key
host_key = record { kind = KeyKind.peer_host; id = 7 }

abbrev network_key : Key
network_key = record { kind = KeyKind.peer_network; id = 9 }

abbrev budgets : List (Key × Quota)
budgets = (host_key, pair) ∷ (network_key, pair) ∷ []

abbrev host_row : Row
host_row = record { tat_ms = 2500; updated_at_ms = 900 }

abbrev host_rows : Rows
host_rows = (row_of relay_web host_key, host_row) ∷ []

abbrev db : Db
db = record { rows = host_rows; works = true }

abuse_sweep-charge_one_example :
    (charge_one (abuse_sweep host_rows 1000) relay_web host_key pair 1 4000 9000).1
    ≡ (charge_one host_rows relay_web host_key pair 1 4000 9000).1
unfolding lookup code tolerance_ms cost_ms emission_ms bytes_eq
abuse_sweep-charge_one_example =
    abuse_sweep-charge_one host_rows relay_web host_key pair 1 1 1000 4000 9000 (refl, tt)
      (omega arith) (omega arith)

abbrev web : Policy
web = record {
  id = relay_web;
  budgets =
      (record { key = KeyKind.peer_host; quota = pair })
      ∷ (record { key = KeyKind.peer_network; quota = pair })
      ∷ [];
  on_store_error = StoreErrorPolicy.degraded;
}

abbrev gate : Gate Db
gate = record { store = db_store; policies = record { policies = web ∷ [] }; retry_cap_ms = 9000 }

abbrev caller : Fingerprint
caller = record { keys = host_key ∷ network_key ∷ [] }

admit-db_store_example :
    ((admit gate db relay_web caller 1 1000).1 ≡ ok tt)
    ↔ All (λ b. IsAdmitted (alone db.rows relay_web 1 1000 9000 b)) (select caller web.budgets)
unfolding is_charged code get_policy select get bytes_eq
admit-db_store_example =
    admit-db_store gate db relay_web caller 1 1000 web refl refl refl (refl, (refl, tt))

-- A throttled host and a network with room.
abbrev charges : List Charge
charges =
    (record { outcome = Outcome.throttled; retry_after_ms = 500 })
    ∷ (record { outcome = Outcome.admitted; retry_after_ms = 0 })
    ∷ []

-- Nine bytes, so that there is a word and a tail.
abbrev mixed : List ℕ
mixed = ascii "/A/b-c.d~"

abbrev mixed-IsByte : All IsByte mixed
mixed-IsByte = (
  omega arith,
  (
    omega arith,
    (
      omega arith,
      (omega arith, (omega arith, (omega arith, (omega arith, (omega arith, (omega arith, tt)))))),
    ),
  ),
)

classify-any_example : classify mixed ≡ (any is_malformed mixed, any is_upper mixed)
classify-any_example = classify-any mixed mixed-IsByte

inspect-rules_example : inspect (ascii "GET") mixed ≡ rules (ascii "GET") mixed
unfolding before_query
inspect-rules_example = inspect-rules (ascii "GET") mixed mixed-IsByte

abbrev no_routes : RouteTable
no_routes = record { routes = [] }

-- A request at the admin host.
abbrev request : List ℕ → List ℕ → RequestContext
request path raw_path = record {
  surface = record { scheme = Scheme.https; host = Host.admin };
  method = ascii "GET";
  path = path;
  raw_path = raw_path;
  fingerprint = caller;
  view = relay_web;
  now_ms = 1000;
}

evaluate-block_example :
    (evaluate (passes gate no_routes) db (request mixed mixed)
      ≡ (db, Decision.block ScanVerdict.leftover))
    ↔ (rules (ascii "GET") mixed ≡ some ScanVerdict.leftover)
unfolding is_exempt bytes_eq starts_with before_query
evaluate-block_example =
    evaluate-block gate no_routes db (request mixed mixed) ScanVerdict.leftover refl mixed-IsByte

-- A path with a query.
abbrev long_path : List ℕ
long_path = ascii "/a?b"
