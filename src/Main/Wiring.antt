-- ===== src/Main/Wiring.antt =====
-- cmd/flexds/main.go from the flags to the start of the goroutines: main makes one snapshot cache, and
-- the snapshot manager, the server and its callbacks each keep a reference to it. The caches are
-- cells of a store here; everywhere else in this library one state stands for all three
-- references. (The logger and the admin server are left out.)
pub mod Shared
mod Tests
use flexds.Prelude.{ℕ, Bool, Option, none, some, List, [], ◌∷◌, eqb, if◌then◌else◌}
use flexds.Results.{Result}
use flexds.Results.Panics.{Run, returns, ◌>>=◌}
use flexds.Strings.{Text}
use flexds.Common.Telemetry.{Metrics, new_metrics, MetricOpts, init_metrics}
use flexds.Common.ServiceModel.{DiscoveredService}
use flexds.Xds.Resources.{Message}
use flexds.Xds.Cache.{SnapshotCache}
use flexds.Xds.SnapshotManager.{World}
use flexds.Xds.Server.{on_stream_request}
use flexds.Discovery.Aggregator.{ServiceMap, Aggregator, update_services}
use flexds.System.{Event, reports, requests}
use flexds.Main.{Flags, FlagError, validate}

-- A reference to a snapshot cache.
abbrev pub Ref : Type 0
Ref = ℕ

abbrev pub Store : Type 0 → Type 0
Store S = Ref → S

abbrev pub write : {S : Type 0} → Ref → S → Store S → Store S
write r s store k = if eqb k r then s else store k

-- xds.Config
pub record Config : Type 0 where
  pub cache : Ref
  pub listener_ports : List ℕ

-- xds.SnapshotManager
pub record SnapshotManager : Type 0 where
  pub cache : Ref
  pub listener_ports : List ℕ

abbrev pub new_snapshot_manager : Config → SnapshotManager
new_snapshot_manager config = record {
  cache = config.cache;
  listener_ports = config.listener_ports;
}

-- The field of xds.ServerCallbacks
pub record ServerCallbacks : Type 0 where
  pub cache : Ref

-- What serverv3.NewServer is given.
pub record XdsServer : Type 0 where
  pub cache : Ref
  pub callbacks : ServerCallbacks

-- The aggregator with the manager that it calls.
pub record DiscoveredServiceAggregator : Type 0 where
  pub discovered_service_map : ServiceMap
  pub snapshot_manager : SnapshotManager

abbrev pub new_discovered_service_aggregator : SnapshotManager → DiscoveredServiceAggregator
new_discovered_service_aggregator manager = record {
  discovered_service_map = [];
  snapshot_manager = manager;
}

-- The program's state: the caches, the variables of the packages, and the parts.
pub record Program (S : Type 0) : Type 0 where
  pub store : Store S
  pub version : ℕ
  pub metrics : Metrics
  pub aggregator : DiscoveredServiceAggregator
  pub server : XdsServer

pub data Prepared (S : Type 0) : Type 0 where
  refused : FlagError → Prepared S
  prepared : Program S → Prepared S

-- From the cache to the xDS server. `free` is the reference of the new cache, and `empty` what
-- NewSnapshotCache makes.
abbrev pub wire : {S : Type 0} → S → Store S → Ref → List ℕ → Program S
wire empty store free listener_ports =
    let manager = new_snapshot_manager (record { cache = free; listener_ports = listener_ports }) in
    let callbacks : ServerCallbacks = record { cache = free } in
    record {
      store = write free empty store;
      version = 1;
      metrics = new_metrics;
      aggregator = new_discovered_service_aggregator manager;
      server = record { cache = free; callbacks = callbacks };
    }

-- main up to its goroutines, with the registry that the metrics are registered in.
unfoldable pub prepare :
    {S R E : Type 0}
    → (MetricOpts → R → Result E R)
    → S
    → Store S
    → Ref
    → Flags
    → R
    → Run (Prepared S × R)
unfolding validate init_metrics
prepare register empty store free f r = elim (validate f) [
  | some e ↦ returns (refused e, r)
  | none ↦ init_metrics register r >>= λ r'.
      returns (prepared (wire empty store free f.listener_ports), r')
]

-- What the manager works on, through its own reference.
abbrev pub managed : {S : Type 0} → Program S → World S
managed p = record {
  version = p.version;
  cache_state = p.store p.aggregator.snapshot_manager.cache;
  metrics = p.metrics;
}

abbrev pub set_managed : {S : Type 0} → Program S → Aggregator S → Program S
set_managed p a = record p {
  store = write p.aggregator.snapshot_manager.cache a.world.cache_state p.store;
  version = a.world.version;
  metrics = a.world.metrics;
  aggregator = record p.aggregator { discovered_service_map = a.discovered_service_map };
}

module _ {S : Type 0} (cache : SnapshotCache S) (marshals : Message → Bool)
    (range : ServiceMap → ServiceMap) where
  -- A report goes through the manager's reference, a request through that of the callbacks.
  unfoldable pub step_through : Program S → Event → Run (Program S)
  unfolding update_services on_stream_request
  step_through p (reports loader services) =
      let a : Aggregator S = record {
        discovered_service_map = p.aggregator.discovered_service_map;
        world = managed p;
      } in
      update_services cache marshals p.aggregator.snapshot_manager.listener_ports range loader
        services a
      >>= λ a'. returns (set_managed p a')
  step_through p (requests node) =
      let r = p.server.callbacks.cache in
      returns (record p { store = write r (on_stream_request cache node (p.store r)).0 p.store })

  unfoldable pub run_through : Program S → List Event → Run (Program S)
  unfolding step_through
  run_through p [] = returns p
  run_through p (e ∷ es) = step_through p e >>= λ p'. run_through p' es
