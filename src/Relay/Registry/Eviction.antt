-- ===== src/Relay/Registry/Eviction.antt =====
-- What an eviction leaves of the routes.
use tunnel_weaver.Base.{
  ◌≡◌, refl, ◌∙◌, if◌then◌else◌, false, List, [], ◌∷◌, Option, none, some, bytes_eq, bytes_eq_iff,
  bytes_key, lookup, lookup-remove, arith,
}
use tunnel_weaver.Relay.Registry.{Host, TunnelRoute, TunnelRegistry, set_active, drop_route, evict}
use tunnel_weaver.Relay.Registry.Keys.{contains}

drop_route-routes :
    (r : TunnelRegistry) (host : Host) (o : Option TunnelRoute) (h : Host)
    → lookup host r.routes ≡ o
    → lookup h (drop_route r host o).routes ≡ (if bytes_eq host h then none else lookup h r.routes)
drop_route-routes r host none h q = ground (arith, bytes_eq_iff host h)
drop_route-routes r host (some route) h q = lookup-remove host h r.routes

drop_route-connections :
    (r : TunnelRegistry) (host : Host) (o : Option TunnelRoute)
    → (drop_route r host o).connections ≡ r.connections
drop_route-connections r host none = refl
drop_route-connections r host (some route) = refl

-- The hosts lose their routes, and no other host does.
pub evict-routes :
    (hosts : List Host) (r : TunnelRegistry) (h : Host)
    → lookup h (evict hosts r).routes ≡ (if contains h hosts then none else lookup h r.routes)
unfolding evict set_active contains
evict-routes [] r h = refl
evict-routes (host ∷ hosts) r h =
    let dropped = drop_route r host (lookup host r.routes) in
    evict-routes hosts (set_active dropped host false) h
    ∙ ground (arith, drop_route-routes r host (lookup host r.routes) h refl)

pub evict-connections :
    (hosts : List Host) (r : TunnelRegistry) → (evict hosts r).connections ≡ r.connections
unfolding evict set_active
evict-connections [] r = refl
evict-connections (host ∷ hosts) r =
    evict-connections hosts (set_active (drop_route r host (lookup host r.routes)) host false)
    ∙ drop_route-connections r host (lookup host r.routes)

drop_route-next_conn_id :
    (r : TunnelRegistry) (host : Host) (o : Option TunnelRoute)
    → (drop_route r host o).next_conn_id ≡ r.next_conn_id
drop_route-next_conn_id r host none = refl
drop_route-next_conn_id r host (some route) = refl

pub evict-next_conn_id :
    (hosts : List Host) (r : TunnelRegistry) → (evict hosts r).next_conn_id ≡ r.next_conn_id
unfolding evict set_active
evict-next_conn_id [] r = refl
evict-next_conn_id (host ∷ hosts) r =
    evict-next_conn_id hosts (set_active (drop_route r host (lookup host r.routes)) host false)
    ∙ drop_route-next_conn_id r host (lookup host r.routes)
