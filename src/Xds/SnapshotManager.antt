-- ===== src/Xds/SnapshotManager.antt =====
-- internal/xds/snapshot_manager.go: building a snapshot and pushing it to the cache.
pub mod Distribute
pub mod Push
pub mod Versions
pub mod Whole
mod Tests
use flexds.Prelude.{
  ℕ, suc, ◌+◌, ◌%◌, ◌^◌, Bool, true, false, not, Option, none, some, List, [], ◌∷◌, ◌++◌, map,
  if◌then◌else◌,
}
use flexds.Results.Panics.{Run, returns, panics, ◌>>=◌}
use flexds.Strings.{Text, codes, itoa}
use flexds.Common.Telemetry.{Metrics, inc_snapshots_pushed}
use flexds.Common.ServiceModel.{DiscoveredService}
use flexds.Xds.Resources.{
  Message, auto, HttpConnectionManager, connection_manager, VirtualHost, RouteConfiguration,
  http_connection_manager, Listener, Resources, Snapshot, Route,
}
use flexds.Xds.Clusters.{Built, build, is_nil}
use flexds.Xds.Cache.{Error, SnapshotCache}

-- What a push reads and writes: the package's `version` (a uint64), the cache, and the metrics.
pub record World (S : Type 0) : Type 0 where
  pub version : ℕ
  pub cache_state : S
  pub metrics : Metrics

abbrev pub reference_key : Text
reference_key = codes "__REFERENCE_SNAPSHOT__"

abbrev pub route_config_name : Text
route_config_name = codes "local_route"

abbrev pub hcm_config : HttpConnectionManager
hcm_config = record {
  stat_prefix = codes "ingress_http";
  codec_type = auto;
  route_config_name = route_config_name;
  http_filter_name = codes "envoy.filters.http.router";
  http_filter_type_url = codes "type.googleapis.com/envoy.extensions.filters.http.router.v3.Router";
}

abbrev pub to_listener : ℕ → Listener
to_listener port = record {
  name = codes "listener_" ++ itoa port;
  address = record { address = codes "0.0.0.0"; port_value = port };
  filter_name = http_connection_manager;
  filter_config = connection_manager hcm_config;
}

-- The virtual hosts: none if there is no route.
abbrev pub virtual_hosts : List Route → List VirtualHost
virtual_hosts [] = []
virtual_hosts (r ∷ routes) =
    record { name = codes "default"; domains = codes "*" ∷ []; routes = r ∷ routes } ∷ []

-- `listener_ports` is the manager's field, a slice of uint32.
abbrev pub full_resources : List ℕ → Built → Resources
full_resources listener_ports b = record {
  clusters = b.clusters;
  endpoints = b.endpoints;
  routes = record { name = route_config_name; virtual_hosts = virtual_hosts b.routes } ∷ [];
  listeners = map to_listener listener_ports;
}

abbrev pub empty_resources : Resources
empty_resources = record { clusters = []; endpoints = []; routes = []; listeners = [] }

-- atomic.AddUint64(&version, 1)
abbrev pub next_version : ℕ → ℕ
next_version v = (v + 1) % 2 ^ 64

module _ {S : Type 0} (cache : SnapshotCache S) where
  -- The loop over the node IDs; errors are only logged.
  unfoldable pub set_nodes : Snapshot → List Text → S → S
  set_nodes snap [] s = s
  set_nodes snap (node ∷ nodes) s = set_nodes snap nodes (cache.set_snapshot node snap s).0

  -- The reference snapshot, then the nodes that the cache knows.
  unfoldable pub distribute : Snapshot → S → S
  unfolding set_nodes
  distribute snap s =
      let s' = (cache.set_snapshot reference_key snap s).0 in
      set_nodes snap (cache.get_status_keys s') s'

  abbrev pub snapshot_of : World S → Resources → Snapshot
  snapshot_of w resources = record {
    version = itoa (next_version w.version);
    resources = resources;
  }

  -- The branch without clusters. The version is used up, also when NewSnapshot fails.
  unfoldable pub push_empty : World S → World S
  unfolding distribute
  push_empty w =
      let snap = snapshot_of w empty_resources in
      let w' = record w { version = next_version w.version } in
      if cache.accepts snap.version empty_resources
      then record w' { cache_state = distribute snap w.cache_state }
      else w'

  unfoldable pub push_full : World S → Resources → World S
  unfolding distribute
  push_full w resources =
      let snap = snapshot_of w resources in
      let w' = record w { version = next_version w.version } in
      if cache.accepts snap.version resources
      then record w' {
        cache_state = distribute snap w.cache_state;
        metrics = inc_snapshots_pushed w.metrics;
      }
      else w'

  -- BuildAndPushSnapshot; `marshals m` says that anypb.New(m) returns no error.
  unfoldable pub build_and_push :
      (Message → Bool) → List ℕ → List DiscoveredService → World S → Run (World S)
  unfolding push_empty push_full build
  build_and_push marshals listener_ports services w = build marshals services >>= λ b.
      if is_nil b.clusters
      then returns (push_empty w)
      else if not (marshals (connection_manager hcm_config))
      then returns w
      else returns (push_full w (full_resources listener_ports b))
