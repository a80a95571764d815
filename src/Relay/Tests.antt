-- ===== src/Relay/Tests.antt =====
-- The theorems on the registry and the host, at a concrete relay.
use tunnel_weaver.Base.{
  selected, delete_rows, ◌≡◌, refl, if◌then◌else◌, true, false, none, [], ◌∷◌, some, ok, err, ascii,
  replicate, bytes_eq, bytes_key, lookup, insert, remove, to_ascii_lowercase, to_lower, is_upper,
  is_digit, is_alphanumeric, arith,
}
use tunnel_weaver.Mux.Wire.{KeyId}
use tunnel_weaver.Relay.Registry.{
  Host, Identity, hostname, TunnelRoute, TunnelRegistry, new, set_active, is_active, flat_hostname,
  connect, connect, register_connection, unregister_connection,
}
use tunnel_weaver.Relay.Registry.Keys.{key_beq, key_key, contains, add, without}
use tunnel_weaver.Relay.Control.{RefusalCode}
use tunnel_weaver.Relay.Services.{claim, alone, insert_route, meter, hold, publish}
use tunnel_weaver.Relay.Services.Leases.{IsConsistent}
use tunnel_weaver.Relay.Services.Leases.Steps.{Whole, Whole-IsConsistent, new-IsConsistent}
use tunnel_weaver.Relay.Services.Leases.Sections.{
  Section, World, Step, Steps, begin, draw_number, connect_as,
}
use tunnel_weaver.Relay.Services.Leases.Stale.{unregister_connection-superseded}
use tunnel_weaver.Relay.Services.Closing.{unregister_connection-routes, publish-stale}
use tunnel_weaver.Relay.Rename.{rename_machine, move_routes, hosts_of}
use tunnel_weaver.Relay.Rename.Derived.{rename_machine-hostname}
use tunnel_weaver.Relay.Host.{parse_host_value, every, is_name_byte, split_host, split_at}
use tunnel_weaver.Relay.Host.Grammar.{parse_host_value-IsRead, IsRead}

abbrev laptop : KeyId
laptop = KeyId.ed25519 (replicate 32 7)

abbrev poc : Identity
poc = record { machine_id = 1; person_id = 2; person = ascii "poc"; machine = ascii "laptop" }

-- A laptop is connected, and serves `web`.
abbrev connected : TunnelRegistry
connected = (register_connection new laptop).0

abbrev web : Host
web = ascii "poc-laptop-web.example.com"

abbrev serving : TunnelRegistry
serving = (publish alone connected laptop 1 (ascii "web") web 5).0

connected-IsConsistent : IsConsistent connected
connected-IsConsistent =
    Whole-IsConsistent new connected (Whole.connect new laptop) new-IsConsistent

Whole-IsConsistent_example : IsConsistent serving
unfolding connect register_connection new lookup insert bytes_eq
Whole-IsConsistent_example =
    Whole-IsConsistent connected serving
      (Whole.serve connected laptop 1 (ascii "web") web 5
        (record { connection_id = 1; close_tx = true; services = [] }) refl refl)
      connected-IsConsistent

abbrev web_route : TunnelRoute
web_route = record { hostname = web; service = ascii "web"; service_id = 5; key_id = laptop }

unregister_connection-routes_example :
    ((k : KeyId)
      → lookup k (unregister_connection serving laptop 1).connections
        ≡ (if key_beq laptop k then none else lookup k serving.connections))
    × ((h : Host)
        → lookup h (unregister_connection serving laptop 1).routes
          ≡ (if contains h (web ∷ []) then none else lookup h serving.routes))
    × ((h : Host)
        → contains h (web ∷ []) ≡ true
        → is_active (unregister_connection serving laptop 1) h ≡ false)
unfolding publish connect register_connection new lookup insert set_active add contains bytes_eq
unregister_connection-routes_example =
    unregister_connection-routes serving laptop 1
      (record { connection_id = 1; close_tx = true; services = web ∷ [] }) refl refl

-- The laptop has connected again while the first registration was waiting.
abbrev again : TunnelRegistry
again = (register_connection connected laptop).0

again-IsConsistent : IsConsistent again
again-IsConsistent =
    Whole-IsConsistent connected again (Whole.connect connected laptop) connected-IsConsistent

-- The laptop draws a number and connects, its registration inserts a route, and before that is held the laptop
-- draws another number.
abbrev asked : World
asked = draw_number begin

abbrev first_route : World
first_route = record {
  registry = (insert_route (connect_as asked laptop 1).registry laptop (ascii "web") web 5).0;
  drawn = (connect_as asked laptop 1).drawn;
}

abbrev asked_again : World
asked_again = draw_number first_route

-- The laptop has connected under it, and the meter of the first registration has been started since.
abbrev later : World
later = record {
  registry = meter 5 (connect_as asked_again laptop 2).registry;
  drawn = (connect_as asked_again laptop 2).drawn;
}

unregister_connection-superseded_example :
    (unregister_connection later.registry laptop 1 ≡ later.registry)
    × ((host : Host)
        → hold 1 host (lookup laptop later.registry.connections) laptop later.registry
          ≡ later.registry)
unfolding selected new connect delete_rows lookup
unregister_connection-superseded_example =
    unregister_connection-superseded asked asked_again later laptop 1 2
      (Steps.and_then begin begin asked (Steps.none_yet begin) (Step.drawing begin)) (omega arith)
      (Steps.and_then (connect_as asked laptop 1) first_route asked_again
        (Steps.and_then (connect_as asked laptop 1) (connect_as asked laptop 1) first_route
          (Steps.none_yet (connect_as asked laptop 1))
          (Step.section (connect_as asked laptop 1) first_route.registry
            (Section.routed (connect_as asked laptop 1).registry laptop (ascii "web") web 5)))
        (Step.drawing first_route))
      (omega arith)
      (Steps.and_then (connect_as asked_again laptop 2) (connect_as asked_again laptop 2) later
        (Steps.none_yet (connect_as asked_again laptop 2))
        (Step.section (connect_as asked_again laptop 2) later.registry
          (Section.metered (connect_as asked_again laptop 2).registry 5)))

publish-stale_example :
    ((publish alone again laptop 1
        (ascii "web")
        (hostname poc (ascii "web") (ascii "example.com"))
        5).1
      ≡ ok (hostname poc (ascii "web") (ascii "example.com")))
    × (¬ IsConsistent
        (publish alone again laptop 1
          (ascii "web")
          (hostname poc (ascii "web") (ascii "example.com"))
          5).0)
    × (claim
          (register_connection
            (publish alone again laptop 1
              (ascii "web")
              (hostname poc (ascii "web") (ascii "example.com"))
              5).0
            laptop).0
          (some poc)
          (ascii "web")
          (ascii "example.com")
        ≡ err RefusalCode.already_registered)
unfolding connect register_connection new lookup insert bytes_eq
publish-stale_example =
    publish-stale again laptop 1 poc (ascii "web") (ascii "example.com") 5 again-IsConsistent
      (omega arith) refl

parse_host_value-IsRead_example : IsRead (ascii "a.b:80") (ascii "a.b")
unfolding parse_host_value split_host split_at every is_name_byte is_alphanumeric is_upper is_digit
parse_host_value-IsRead_example = parse_host_value-IsRead (ascii "a.b:80") (ascii "a.b") refl

-- The laptop, renamed.
abbrev desk : Identity
desk = record { machine_id = 1; person_id = 2; person = ascii "poc"; machine = ascii "desk" }

abbrev desk_web : Host
desk_web = hostname desk (ascii "web") (ascii "example.com")

rename_machine-hostname_example : desk_web ≡ hostname desk web_route.service (ascii "example.com")
unfolding rename_machine move_routes hosts_of set_active is_active publish connect
    register_connection new lookup insert remove contains add without bytes_eq flat_hostname
    to_ascii_lowercase to_lower is_upper
rename_machine-hostname_example =
    rename_machine-hostname (λ r. r) serving laptop desk (ascii "example.com") desk_web
      (record { hostname = desk_web; service = ascii "web"; service_id = 5; key_id = laptop })
      (λ r h route e k. e) refl refl
