-- ===== src/Relay/Services/Activity.antt =====
-- The active flag of a hostname, after a registration.
use tunnel_weaver.Base.{
  ℕ, ◌≡◌, refl, subst, Bool, true, false, List, Option, none, some, Result, ok, err, bytes_eq_iff,
  bytes_key, lookup, to_ascii_lowercase, arith,
}
use tunnel_weaver.Mux.Wire.{KeyId}
use tunnel_weaver.Relay.Registry.{
  Host, TunnelRoute, Identity, TunnelRegistry, set_active, is_active, drop_route,
}
use tunnel_weaver.Relay.Registry.Keys.{contains-add, contains-without}
use tunnel_weaver.Relay.Control.{RefusalCode}
use tunnel_weaver.Relay.Services.{
  claim, Others, publish, is_routed_to, settle, finish, persisted, claimed, register_service,
}

pub is_active-set_active :
    (r : TunnelRegistry) (host : Host) (active : Bool)
    → is_active (set_active r host active) host ≡ active
unfolding is_active set_active
is_active-set_active r host true = ground (
  arith,
  contains-add (to_ascii_lowercase host) (to_ascii_lowercase host) r.active_hosts,
  bytes_eq_iff (to_ascii_lowercase host) (to_ascii_lowercase host),
)
is_active-set_active r host false = ground (
  arith,
  contains-without (to_ascii_lowercase host) (to_ascii_lowercase host) r.active_hosts,
  bytes_eq_iff (to_ascii_lowercase host) (to_ascii_lowercase host),
)

-- A host that is not active stays so when another is made inactive, or loses its route.
pub set_active-is_active-false :
    (r : TunnelRegistry) (host h : Host)
    → is_active r h ≡ false
    → is_active (set_active r host false) h ≡ false
unfolding is_active set_active
set_active-is_active-false r host h f =
    ground (arith, contains-without (to_ascii_lowercase host) (to_ascii_lowercase h) r.active_hosts)

pub drop_route-is_active :
    (r : TunnelRegistry) (host : Host) (o : Option TunnelRoute) (h : Host)
    → is_active (drop_route r host o) h ≡ is_active r h
unfolding is_active
drop_route-is_active r host none h = refl
drop_route-is_active r host (some route) h = refl

settle-is_active :
    (r : TunnelRegistry) (key : KeyId) (host : Host)
    → is_active (settle r key host) host ≡ is_routed_to key (lookup host (settle r key host).routes)
unfolding settle set_active
settle-is_active r key host = is_active-set_active r host (is_routed_to key (lookup host r.routes))

-- What an answer says of the flag.
abbrev pub IsFlagged : KeyId → TunnelRegistry × Result RefusalCode Host → Type 0
IsFlagged key (r, err code) = Unit {0}
IsFlagged key (r, ok host) = is_active r host ≡ is_routed_to key (lookup host r.routes)

finish-IsFlagged :
    (ensure : TunnelRegistry → TunnelRegistry) (key : KeyId)
    (answer : TunnelRegistry × Result RefusalCode Host)
    → IsFlagged key (finish ensure key answer)
finish-IsFlagged ensure key (r, err code) = tt
finish-IsFlagged ensure key (r, ok host) = settle-is_active (ensure r) key host

persisted-IsFlagged :
    (others : Others) (ensure : TunnelRegistry → TunnelRegistry) (key : KeyId) (id : ℕ)
    (service : List ℕ) (host : Host) (answer : TunnelRegistry × Option ℕ)
    → IsFlagged key (persisted others ensure key id service host answer)
persisted-IsFlagged others ensure key id service host (r, none) = tt
persisted-IsFlagged others ensure key id service host (r, some service_id) =
    finish-IsFlagged ensure key (publish others r key id service host service_id)

claimed-IsFlagged :
    (persist : TunnelRegistry → TunnelRegistry × Option ℕ) (others : Others)
    (ensure : TunnelRegistry → TunnelRegistry) (r : TunnelRegistry) (key : KeyId) (id : ℕ)
    (service : List ℕ) (o : Result RefusalCode Host)
    → IsFlagged key (claimed persist others ensure r key id service o)
claimed-IsFlagged persist others ensure r key id service (err code) = tt
claimed-IsFlagged persist others ensure r key id service (ok host) =
    persisted-IsFlagged others ensure key id service host (persist r)

-- Whatever other tasks have done to the registry during the two waits and between its sections, a registration that succeeds
-- leaves its hostname active exactly if the hostname is routed to the machine that registered it.
pub register_service-is_active :
    (persist : TunnelRegistry → TunnelRegistry × Option ℕ) (others : Others)
    (ensure : TunnelRegistry → TunnelRegistry) (r r' : TunnelRegistry) (identity : Option Identity)
    (domain : List ℕ) (key : KeyId) (id : ℕ) (service : List ℕ) (host : Host)
    → register_service persist others ensure r identity domain key id service ≡ (r', ok host)
    → is_active r' host ≡ is_routed_to key (lookup host r'.routes)
unfolding register_service
register_service-is_active persist others ensure r r' identity domain key id service host h =
    subst (IsFlagged key) h
      (claimed-IsFlagged persist others ensure r key id service (claim r identity service domain))
