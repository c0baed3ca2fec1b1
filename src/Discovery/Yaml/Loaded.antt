-- ===== src/Discovery/Yaml/Loaded.antt =====
-- What a load leaves, and the names of the routes.
use mathlib.Core.List.{Perm}
use flexds.Prelude.{
  ℕ, zero, suc, ◌+◌, ◌≡◌, refl, sym, ap, ◌∙◌, Bool, true, Option, none, some, List, [], ◌∷◌, ◌++◌,
  map, arith, get_elem?,
}
use flexds.Results.{Result, ok, err}
use flexds.Results.Panics.{returns}
use flexds.Strings.{Text, codes, itoa}
use flexds.Strings.Decimal.{itoa_injective}
use flexds.Dict.{IsMap}
use flexds.Common.ServiceModel.{RoutePattern}
use flexds.Xds.Resources.{Message, Snapshot}
use flexds.Xds.Clusters.Served.{served, cluster_of}
use flexds.Xds.Cache.{SnapshotCache, CacheLaws, IsReliable}
use flexds.Xds.SnapshotManager.{reference_key}
use flexds.Discovery.Aggregator.{ServiceMap, Aggregator, aggregate}
use flexds.Discovery.Aggregator.Order.{without}
use flexds.Discovery.Aggregator.Pushed.{update_services_clusters}
use flexds.Discovery.Yaml.{
  Route, Service, route_name, routes_from, parse_routes, to_service, contents, load_services,
  load_config,
}

append_inj : (p s t : Text) → p ++ s ≡ p ++ t → s ≡ t
append_inj [] s t h = h
append_inj (c ∷ p) s t h = append_inj p s t (cc h)

route_name_inj : (service : Text) (m n : ℕ) → route_name service m ≡ route_name service n → m ≡ n
unfolding route_name
route_name_inj service m n h =
    itoa_injective m n (append_inj (service ++ codes "-route-") (itoa m) (itoa n) h)

routes_from-get :
    (service : Text) (first : ℕ) (routes : List Route) (i n : ℕ) (r : RoutePattern)
    → get_elem? (routes_from service first routes) i ≡ some r
    → first + i ≡ n
    → r.name ≡ route_name service n
unfolding routes_from
routes_from-get service first [] i n r h e = cc
routes_from-get service first (route ∷ routes) zero n r h e =
    let same : r.name ≡ route_name service first = cc h in
    let last : first ≡ n = omega (arith, e) in same ∙ ap (route_name service) last
routes_from-get service first (route ∷ routes) (suc i) n r h e =
    routes_from-get service (suc first) routes i n r h (omega (arith, e))

-- No two routes of one service have the same name.
parse_routes_distinct :
    (svc : Service) (i j : ℕ) (r s : RoutePattern)
    → get_elem? (parse_routes svc) i ≡ some r
    → get_elem? (parse_routes svc) j ≡ some s
    → r.name ≡ s.name
    → i ≡ j
unfolding parse_routes
parse_routes_distinct svc i j r s h k e = route_name_inj svc.name i j (
    sym (routes_from-get svc.name 0 svc.routes i i r h (omega arith))
    ∙ e
    ∙ routes_from-get svc.name 0 svc.routes j j s k (omega arith))

-- What LoadConfig leaves, by the file's contents.
abbrev pub Loads :
    {E : Type 0} {S : Type 0}
    → SnapshotCache S
    → Aggregator S
    → Result E (List Service)
    → Aggregator S × Option E
    → Type 0
Loads cache a (err e) (a', r) = (a' ≡ a) × (r ≡ some e)
Loads cache a (ok services) (a', r) =
    (r ≡ none)
    × (snap : Snapshot) × (cache.get_snapshot reference_key a'.world.cache_state ≡ ok snap)
    × Perm snap.resources.clusters (
        map cluster_of (
          served (
            map to_service services
            ++ aggregate (without (codes "yaml_loader") a.discovered_service_map))))

module _ {E : Type 0} {S : Type 0} (cache : SnapshotCache S) (laws : CacheLaws cache)
    (reliable : IsReliable cache) (marshals : Message → Bool)
    (all_marshal : (m : Message) → marshals m ≡ true) (listener_ports : List ℕ)
    (range : ServiceMap → ServiceMap) (any_order : (m : ServiceMap) → Perm (range m) m) where
  load_services-Loads :
      (loaded : Result E (List Service)) (a : Aggregator S)
      → IsMap a.discovered_service_map
      → (r : Aggregator S × Option E) × (load_services cache marshals listener_ports range loaded a
          ≡ returns r)
        × Loads cache a loaded r
  unfolding load_services
  load_services-Loads (err e) a h = ((a, some e), refl, (refl, refl))
  load_services-Loads (ok services) a h =
      let (a', snap, runs, held, p) =
        update_services_clusters cache laws reliable marshals all_marshal listener_ports range
          any_order (codes "yaml_loader") (map to_service services) a h in
      ((a', none), rw runs refl, (refl, snap, held, p))

  -- Where messages can be marshalled, the cache takes snapshots and the map has each loader once,
  -- LoadConfig returns. If the file cannot be read or parsed, it returns that error and nothing
  -- changes; otherwise no error, and the reference snapshot has the clusters of the file's
  -- services and those of the other loaders that have an instance and a route, and no other
  -- cluster.
  pub load_config-Loads :
      (read_file : Text → Result E Text) (unmarshal : Text → Result E (List Service))
      (config_path : Text) (a : Aggregator S)
      → IsMap a.discovered_service_map
      → (r : Aggregator S × Option E) × (load_config cache marshals listener_ports range read_file
            unmarshal config_path a
          ≡ returns r)
        × Loads cache a (contents read_file unmarshal config_path) r
  unfolding load_config
  load_config-Loads read_file unmarshal config_path a h =
      load_services-Loads (contents read_file unmarshal config_path) a h
