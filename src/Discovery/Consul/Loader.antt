-- ===== src/Discovery/Consul/Loader.antt =====
-- internal/discovery/consul/consul_loader.go: the handler of service changes, and StartWatcher.
pub mod Entries
pub mod Discovered
pub mod Strategies
pub mod Counted
pub mod Published
pub mod Samples
mod Tests
use flexds.Prelude.{
  ℕ, ℤ, pos, Bool, true, false, Option, none, some, List, [], ◌∷◌, ltb, length, if◌then◌else◌,
}
use flexds.Results.{Result, ok, err}
use flexds.Results.Panics.{Run, returns, panics, ◌>>=◌}
use flexds.Strings.{Text, codes, is_empty, ◌==◌}
use flexds.Dict.{Dict, lookup, or_zero}
use flexds.Common.Telemetry.{set_services_discovered}
use flexds.Common.ServiceModel.{ServiceInstance, RoutePattern, DiscoveredService}
use flexds.Xds.Resources.{Message}
use flexds.Xds.Cache.{SnapshotCache}
use flexds.Discovery.Aggregator.{ServiceMap, Aggregator, update_services}
use flexds.Discovery.Consul.RouteParser.{parse_service_routes}
use flexds.Discovery.Consul.Watcher.{Round, Calls, new_watcher, watch}

-- What the handler reads of an api.ServiceEntry: of `Service` and, last, `Node.Address`.
pub record Entry : Type 0 where
  pub service : Text
  pub address : Text
  pub port : ℤ
  pub meta : Dict Text
  pub modify_index : ℕ
  pub node_address : Text

-- The order of sort.Slice: the highest index first.
abbrev pub newer : Entry → Entry → Bool
newer a b = ltb b.modify_index a.modify_index

abbrev pub entry_address : Entry → Text
entry_address e = if is_empty e.address then e.node_address else e.address

-- The loop over the entries; one without an address is passed over.
unfoldable pub instances_of : List Entry → List ServiceInstance
instances_of [] = []
instances_of (e ∷ entries) =
    let rest = instances_of entries in
    if is_empty (entry_address e)
    then rest
    else record { address = entry_address e; port = e.port } ∷ rest

-- `if val, ok := meta[key]; ok && val == "true"`
abbrev pub is_set : Text → Dict Text → Bool
is_set key meta = or_zero [] (lookup key meta) == codes "true"

abbrev duration_or_zero : Option ℤ → ℤ
duration_or_zero none = pos 0
duration_or_zero (some d) = d

-- `parse_duration` is time.ParseDuration, none where it fails.
abbrev pub refresh_rate : (Text → Option ℤ) → Option Text → ℤ
refresh_rate parse_duration none = pos 0
refresh_rate parse_duration (some val) = duration_or_zero (parse_duration val)

abbrev pub with_found : Option DiscoveredService → List DiscoveredService → List DiscoveredService
with_found none services = services
with_found (some s) services = s ∷ services

abbrev pub strategy_or_default : Text → Text
strategy_or_default strategy = if is_empty strategy then codes "immediate" else strategy

-- The gauge set to the number of names.
abbrev pub gauged : {S : Type 0} → List Text → Aggregator S → Aggregator S
gauged services a =
    let w = a.world in
    record a { world = record w { metrics = set_services_discovered (length services) w.metrics } }

-- `health svc` is the answer of Health().Service(svc, "", true, nil), `sort less` the result of
-- sort.Slice, and `range_meta` the order in which `range` meets the metadata.
module _ {E : Type 0} (health : Text → Result E (List Entry))
    (sort : (Entry → Entry → Bool) → List Entry → List Entry) (parse_duration : Text → Option ℤ)
    (range_meta : Dict Text → Dict Text) where
  -- The sorted entries, the first of them at `latest`.
  unfoldable pub to_service : Text → Entry → List Entry → DiscoveredService
  unfolding instances_of ◌==◌ lookup parse_service_routes
  to_service svc latest entries = record {
    name = svc;
    enable_http2 = is_set (codes "http2") latest.meta;
    enable_tls = is_set (codes "tls") latest.meta;
    dns_refresh_rate = refresh_rate parse_duration (lookup (codes "dns_refresh_rate") latest.meta);
    instances = instances_of entries;
    routes = parse_service_routes latest.service (range_meta latest.meta);
  }

  -- `entries[0]` panics where there is none.
  unfoldable pub of_sorted : Text → List Entry → Run DiscoveredService
  unfolding to_service
  of_sorted svc [] = panics
  of_sorted svc (latest ∷ entries) = returns (to_service svc latest (latest ∷ entries))

  -- One round of the loop over the services: none where it goes on to the next.
  unfoldable pub discover_one : Text → Result E (List Entry) → Run (Option DiscoveredService)
  unfolding of_sorted
  discover_one svc (err e) = returns none
  discover_one svc (ok []) = returns none
  discover_one svc (ok (e ∷ entries)) = do
    found ← of_sorted svc (sort newer (e ∷ entries))
    returns (some found)

  unfoldable pub discover : List Text → Run (List DiscoveredService)
  unfolding discover_one
  discover [] = returns []
  discover (svc ∷ services) = do
    found ← discover_one svc (health svc)
    rest ← discover services
    returns (with_found found rest)

  module _ {S : Type 0} (cache : SnapshotCache S) (marshals : Message → Bool)
      (listener_ports : List ℕ) (range : ServiceMap → ServiceMap) where
    -- The handler. The gauge counts the names, whether or not their services are found.
    unfoldable pub handle : List Text → Aggregator S → Run (Aggregator S)
    unfolding discover update_services
    handle services a = do
      found ← discover services
      update_services cache marshals listener_ports range (codes "consul_loader") found
          (gauged services a)

    -- The handler's calls in a watch, one after the other. Each queries the health of the services
    -- anew; here all of them get the same answers.
    unfoldable pub handle_all : Calls → Aggregator S → Run (Aggregator S)
    unfolding handle
    handle_all [] a = returns a
    handle_all (names ∷ calls) a = do a' ← handle names a; handle_all calls a'

    -- StartWatcher, from its client on, in the rounds of its watch.
    unfoldable pub start_watcher : Text → List Round → Aggregator S → Run (Aggregator S)
    unfolding handle_all new_watcher watch
    start_watcher strategy rounds a =
        handle_all (watch (new_watcher (strategy_or_default strategy)) rounds) a
