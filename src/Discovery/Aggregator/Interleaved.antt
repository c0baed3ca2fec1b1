-- ===== src/Discovery/Aggregator/Interleaved.antt =====
-- internal/discovery/aggregator.go with two goroutines that call UpdateServices without a lock, as
-- the Consul watcher's does beside main, which runs the YAML and the Marathon loader. Each access
-- of the map, the version or the cache is a step. (An access of the map takes one step: that two
-- at once stop the program is not modelled.)
pub mod Alone
pub mod Lost
mod Tests
use flexds.Prelude.{ℕ, ◌+◌, Bool, true, false, not, List, [], ◌∷◌, if◌then◌else◌}
use flexds.Results.Panics.{Run, returns, panics}
use flexds.Strings.{Text}
use flexds.Dict.{insert}
use flexds.Common.Telemetry.{inc_snapshots_pushed}
use flexds.Common.ServiceModel.{DiscoveredService}
use flexds.Xds.Resources.{Message, connection_manager, Resources, Snapshot}
use flexds.Xds.Clusters.{Built, build, is_nil}
use flexds.Xds.Cache.{SnapshotCache}
use flexds.Xds.SnapshotManager.{
  reference_key, hcm_config, full_resources, empty_resources, next_version, snapshot_of,
}
use flexds.Discovery.Aggregator.{ServiceMap, Aggregator, aggregate}

-- A call of UpdateServices: the loader's name and its services.
abbrev pub Call : Type 0
Call = Text × List DiscoveredService

-- Where a goroutine stands in a call, with the local variables that are live there. `counts`: the
-- push will be counted.
pub data Pc : Type 0 where
  idle : Pc
  stored : Pc
  collected : List DiscoveredService → Pc
  created : Snapshot → (counts : Bool) → Pc  -- before SetSnapshot of the reference
  set_reference : Snapshot → (counts : Bool) → Pc  -- before GetStatusKeys
  setting : Snapshot → (counts : Bool) → List Text → Pc  -- the nodes that are left
  panicked : Pc

-- A goroutine: where it stands in its call, and the calls that it will make next.
pub record Thread : Type 0 where
  pub pc : Pc
  pub calls : List Call

module _ {S : Type 0} (cache : SnapshotCache S) (marshals : Message → Bool)
    (listener_ports : List ℕ) (range : ServiceMap → ServiceMap) where
  -- atomic.AddUint64 and NewSnapshot
  unfoldable pub create : Resources → Bool → Aggregator S → Aggregator S × Pc
  create resources counts a =
      let w = a.world in
      let snap = snapshot_of cache w resources in
      (
        record a { world = record w { version = next_version w.version } },
        if cache.accepts snap.version resources then Pc.created snap counts else Pc.idle,
      )

  unfoldable pub push : Run Built → Aggregator S → Aggregator S × Pc
  unfolding create
  push panics a = (a, Pc.panicked)
  push (returns b) a =
      if is_nil b.clusters
      then create empty_resources false a
      else if not (marshals (connection_manager hcm_config))
      then (a, Pc.idle)
      else create (full_resources listener_ports b) true a

  abbrev set_node : Text → Snapshot → Aggregator S → Aggregator S
  set_node node snap a =
      let w = a.world in
      record a { world = record w { cache_state = (cache.set_snapshot node snap w.cache_state).0 } }

  abbrev count : Bool → Aggregator S → Aggregator S
  count true a =
      let w = a.world in record a { world = record w { metrics = inc_snapshots_pushed w.metrics } }
  count false a = a

  -- The next step of a call that has stored its services.
  unfoldable pub proceed : Pc → Aggregator S → Aggregator S × Pc
  unfolding push build aggregate
  proceed Pc.idle a = (a, Pc.idle)
  proceed Pc.stored a = (a, Pc.collected (aggregate (range a.discovered_service_map)))
  proceed (Pc.collected all) a = push (build marshals all) a
  proceed (Pc.created snap counts) a = (set_node reference_key snap a, Pc.set_reference snap counts)
  proceed (Pc.set_reference snap counts) a =
      (a, Pc.setting snap counts (cache.get_status_keys a.world.cache_state))
  proceed (Pc.setting snap counts []) a = (count counts a, Pc.idle)
  proceed (Pc.setting snap counts (node ∷ nodes)) a =
      (set_node node snap a, Pc.setting snap counts nodes)
  proceed Pc.panicked a = (a, Pc.panicked)

  -- The next step of a goroutine, which starts its next call when it is idle.
  unfoldable pub resume : Pc → List Call → Aggregator S → Aggregator S × Thread
  unfolding proceed insert
  resume Pc.idle [] a = (a, record { pc = Pc.idle; calls = [] })
  resume Pc.idle ((loader, services) ∷ calls) a = (
    record a { discovered_service_map = insert loader services a.discovered_service_map },
    record { pc = Pc.stored; calls = calls },
  )
  resume pc calls a = let r = proceed pc a in (r.0, record { pc = r.1; calls = calls })

  unfoldable pub advance : Aggregator S × Thread → Aggregator S × Thread
  unfolding resume
  advance (a, t) = resume t.pc t.calls a

  -- The steps of two goroutines in the order of a schedule: `true` for the first.
  unfoldable pub run : List Bool → Aggregator S → Thread → Thread → Aggregator S × (Thread × Thread)
  unfolding advance
  run [] a t u = (a, (t, u))
  run (true ∷ schedule) a t u = let r = advance (a, t) in run schedule r.0 r.1 u
  run (false ∷ schedule) a t u = let r = advance (a, u) in run schedule r.0 t r.1
