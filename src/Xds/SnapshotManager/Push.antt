-- ===== src/Xds/SnapshotManager/Push.antt =====
-- What BuildAndPushSnapshot leaves in the cache, the version and the counter.
use flexds.Prelude.{ℕ, ◌≡◌, Bool, true, not, List, [], ◌∷◌, if◌then◌else◌}
use flexds.Results.{ok}
use flexds.Results.Panics.{returns}
use flexds.Strings.{Text, itoa}
use flexds.Common.Telemetry.{Metrics, inc_snapshots_pushed}
use flexds.Common.ServiceModel.{DiscoveredService}
use flexds.Xds.Resources.{Message, connection_manager, Resources}
use flexds.Xds.Clusters.{is_nil}
use flexds.Xds.Clusters.Served.{served, built_of, build_lem}
use flexds.Xds.Cache.{SnapshotCache, CacheLaws, IsReliable}
use flexds.Xds.SnapshotManager.{
  World, hcm_config, full_resources, empty_resources, next_version, distribute, snapshot_of,
  push_empty, push_full, build_and_push,
}
use flexds.Xds.SnapshotManager.Distribute.{IsTarget, distribute_reaches}

-- The resources of a snapshot of the services: nothing if none is served.
abbrev pub resources_of : List ℕ → List DiscoveredService → Resources
resources_of listener_ports [] = empty_resources
resources_of listener_ports (svc ∷ services) =
    full_resources listener_ports (built_of (svc ∷ services))

abbrev pub count_push : List DiscoveredService → Metrics → Metrics
count_push [] m = m
count_push (svc ∷ services) m = inc_snapshots_pushed m

module _ {S : Type 0} (cache : SnapshotCache S) (laws : CacheLaws cache)
    (reliable : IsReliable cache) (marshals : Message → Bool)
    (all_marshal : (m : Message) → marshals m ≡ true) where
  -- The world after a push of the services.
  abbrev pub pushed : List ℕ → List DiscoveredService → World S → World S
  pushed listener_ports services w = record {
    version = next_version w.version;
    cache_state =
        distribute cache (snapshot_of cache w (resources_of listener_ports (served services)))
          w.cache_state;
    metrics = count_push (served services) w.metrics;
  }

  pushed_served :
      (listener_ports : List ℕ) (served_services : List DiscoveredService) (w : World S)
      → (if is_nil (built_of served_services).clusters
          then returns (push_empty cache w)
          else if not (marshals (connection_manager hcm_config))
          then returns w
          else returns
              (push_full cache w (full_resources listener_ports (built_of served_services))))
        ≡ returns (record {
          version = next_version w.version;
          cache_state =
              distribute cache
                (snapshot_of cache w (resources_of listener_ports served_services))
                w.cache_state;
          metrics = count_push served_services w.metrics;
        })
  pushed_served listener_ports [] w =
      unfold push_empty in rw (reliable.creates (itoa (next_version w.version)) empty_resources)
  pushed_served listener_ports (svc ∷ services) w =
      rw (all_marshal (connection_manager hcm_config)) (
        unfold push_full in
        rw (
          reliable.creates (itoa (next_version w.version))
            (full_resources listener_ports (built_of (svc ∷ services)))))

  -- If messages can be marshalled and the cache takes snapshots, BuildAndPushSnapshot returns. The
  -- version has gone up by one, the counter has too if a service was served, and the cache has
  -- been given one snapshot of exactly the served services.
  pub build_and_push_lem :
      (listener_ports : List ℕ) (services : List DiscoveredService) (w : World S)
      → build_and_push cache marshals listener_ports services w
        ≡ returns (pushed listener_ports services w)
  unfolding build_and_push
  build_and_push_lem listener_ports services w =
      rw (build_lem marshals all_marshal services)
        (pushed_served listener_ports (served services) w)

  -- If messages can be marshalled and the cache takes snapshots, then after a push the reference
  -- and each node that the cache knew hold one snapshot: the new version, with the clusters,
  -- endpoints, routes and listeners of exactly the services with an instance and a route (or
  -- nothing at all if there is none).
  pub build_and_push_reaches :
      (listener_ports : List ℕ) (services : List DiscoveredService) (w : World S) (node : Text)
      → let snap = snapshot_of cache w (resources_of listener_ports (served services)) in
        IsTarget cache snap w.cache_state node
        → (w' : World S) × (build_and_push cache marshals listener_ports services w ≡ returns w')
          × (cache.get_snapshot node w'.cache_state ≡ ok snap)
  build_and_push_reaches listener_ports services w node target = (
    pushed listener_ports services w,
    build_and_push_lem listener_ports services w,
    distribute_reaches cache laws reliable _ node w.cache_state target,
  )
