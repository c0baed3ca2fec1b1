-- ===== src/System/Refines.antt =====
-- Whatever happens in whatever order, a node is offered what the loaders reported last.
pub mod EndToEnd
pub mod Arrives
pub mod Implements
use mathlib.Core.Logic.{∥∥₁_map}
use mathlib.Core.List.{Mem, Memᴰ, Perm}
use mathlib.Core.List.Perm
use mathlib.Core.Path.{subst}
use flexds.Prelude.{ℕ, ◌≡◌, ◌↔◌, refl, ◌∙◌, fun_ext, Bool, true, Option, List, [], ◌∷◌, map}
use flexds.Results.{ok}
use flexds.Results.Panics.{returns}
use flexds.Strings.{Text}
use flexds.Dict.{lookup, insert, IsMap}
use flexds.Dict.Laws.{lookup-insert, insert-IsMap}
use flexds.Common.ServiceModel.{DiscoveredService}
use flexds.Xds.Resources.{Message, Snapshot, Cluster}
use flexds.Xds.Clusters.Served.{served, cluster_of}
use flexds.Xds.Cache.{SnapshotCache, CacheLaws, IsReliable}
use flexds.Xds.SnapshotManager.{snapshot_of}
use flexds.Xds.SnapshotManager.Push.{pushed, resources_of, build_and_push_lem}
use flexds.Xds.Server.{on_stream_request}
use flexds.Xds.Server.Streams.{Holds, pushed-Holds, request-Holds}
use flexds.Discovery.Aggregator.{ServiceMap, Aggregator, aggregate, update_services}
use flexds.Discovery.Aggregator.Pushed.{served-perm, clusters-resources_of}
use flexds.Discovery.Aggregator.Order.{aggregate-perm}
use flexds.System.{Event, reports, requests, step, run, last_report}
use flexds.System.Offered.{Offers, Offers-sound, Offers_complete}

-- What the loaders have reported last, where `m` is what they had before the events.
abbrev pub reported_by : ServiceMap → List Event → Text → Option (List DiscoveredService)
reported_by m es loader = last_report loader (lookup loader m) es

module _ {S : Type 0} (cache : SnapshotCache S) (laws : CacheLaws cache)
    (reliable : IsReliable cache) (marshals : Message → Bool)
    (all_marshal : (m : Message) → marshals m ≡ true) (listener_ports : List ℕ)
    (range : ServiceMap → ServiceMap) (any_order : (m : ServiceMap) → Perm (range m) m)
    (node : Text) where
  -- The node and the reference hold a snapshot of the services in the map.
  record InStep (a : Aggregator S) (snap : Snapshot) : Type 0 where
    holds : Holds cache node snap a.world.cache_state
    built :
        (all : List DiscoveredService) × Perm all (aggregate a.discovered_service_map)
        × (snap.resources ≡ resources_of listener_ports (served all))
    once : IsMap a.discovered_service_map

  abbrev reported : Text → List DiscoveredService → Aggregator S → Aggregator S
  reported loader services a =
      let m = insert loader services a.discovered_service_map in
      record {
        discovered_service_map = m;
        world =
            pushed cache laws reliable marshals all_marshal listener_ports (aggregate (range m))
              a.world;
      }

  step_reports :
      (loader : Text) (services : List DiscoveredService) (a : Aggregator S)
      → step cache marshals listener_ports range a (reports loader services)
        ≡ returns (reported loader services a)
  unfolding step update_services
  step_reports loader services a =
      let all = aggregate (range (insert loader services a.discovered_service_map)) in
      rw (build_and_push_lem cache laws reliable marshals all_marshal listener_ports all a.world)

  reported-InStep :
      (loader : Text) (services : List DiscoveredService) (a : Aggregator S)
      → Memᴰ node (cache.get_status_keys a.world.cache_state)
      → IsMap a.discovered_service_map
      → (snap : Snapshot) × InStep (reported loader services a) snap
  reported-InStep loader services a known once =
      let m = insert loader services a.discovered_service_map in
      let all = aggregate (range m) in
      (
        snapshot_of cache a.world (resources_of listener_ports (served all)),
        record {
          holds =
              pushed-Holds cache laws reliable marshals all_marshal listener_ports node all a.world
                known;
          built = (all, aggregate-perm (any_order m), refl);
          once = insert-IsMap loader services a.discovered_service_map once;
        },
      )

  reported_last :
      (loader l : Text) (services : List DiscoveredService) (m : ServiceMap) (es : List Event)
      → last_report l (lookup l (insert loader services m)) es
        ≡ last_report l (lookup l m) (reports loader services ∷ es)
  unfolding last_report
  reported_last loader l services m es = rw (lookup-insert loader l services m)

  run-InStep :
      (es : List Event) (a : Aggregator S) (snap : Snapshot)
      → InStep a snap
      → (a' : Aggregator S) × (snap' : Snapshot) × (run cache marshals listener_ports range a es
          ≡ returns a')
        × InStep a' snap'
        × ((l : Text)
            → lookup l a'.discovered_service_map ≡ reported_by a.discovered_service_map es l)
  unfolding run step last_report
  run-InStep [] a snap h = (a, snap, refl, h, λ l. refl)
  run-InStep (reports loader services ∷ es) a snap h =
      let (snap1, h1) = reported-InStep loader services a h.holds.2 h.once in
      let (a2, snap2, runs, h2, found) = run-InStep es (reported loader services a) snap1 h1 in
      (
        a2,
        snap2,
        rw (step_reports loader services a) runs,
        h2,
        λ l. found l ∙ reported_last loader l services a.discovered_service_map es,
      )
  run-InStep (requests other ∷ es) a snap h =
      let w = a.world in
      let a1 : Aggregator S = record a {
        world = record w { cache_state = (on_stream_request cache other w.cache_state).0 };
      } in
      let h1 : InStep a1 snap = record {
        holds =
            request-Holds cache laws reliable marshals all_marshal listener_ports node other
              w.cache_state snap h.holds;
        built = h.built;
        once = h.once;
      } in
      let (a2, snap2, runs, h2, found) = run-InStep es a1 snap h1 in (a2, snap2, runs, h2, found)

  -- The node has a snapshot, with exactly the clusters that are offered.
  abbrev pub Sees : (Text → Option (List DiscoveredService)) → Aggregator S → Type 0
  Sees offered a =
      (snap : Snapshot) × (cache.get_snapshot node a.world.cache_state ≡ ok snap)
      × ((c : Cluster) → Mem c snap.resources.clusters ↔ ∥ Offers offered c ∥₁)

  InStep-clusters :
      (a : Aggregator S) (snap : Snapshot)
      → InStep a snap
      → Perm snap.resources.clusters (map cluster_of (served (aggregate a.discovered_service_map)))
  InStep-clusters a snap h =
      let (all, same, e) = h.built in
      rw (e, clusters-resources_of listener_ports (served all))
        (Perm.map cluster_of (served-perm same))

  InStep-Sees :
      (a : Aggregator S) (snap : Snapshot)
      → InStep a snap
      → Sees (λ l. lookup l a.discovered_service_map) a
  InStep-Sees a snap h = (
    snap,
    h.holds.1,
    λ c. (
      λ i.
          ∥∥₁_map ((Perm.mem_iff (InStep-clusters a snap h)).0 i)
            (Offers-sound c a.discovered_service_map h.once),
      λ o.
          (Perm.mem_iff (InStep-clusters a snap h)).1
            (∥∥₁_map o (Offers_complete c a.discovered_service_map)),
    ),
  )

  -- Where messages can be marshalled, the cache takes snapshots, the map has each loader once and
  -- the cache knows the node: from a report on, any reports of any loaders and requests of any
  -- nodes, in any order, end without a panic. The node then has a snapshot, and a cluster is in it
  -- exactly if it is that of a service, with an instance and a route, in what some loader reported
  -- last.
  pub run-Sees :
      (loader : Text) (services : List DiscoveredService) (es : List Event) (a : Aggregator S)
      → Memᴰ node (cache.get_status_keys a.world.cache_state)
      → IsMap a.discovered_service_map
      → (a' : Aggregator S) × (run cache marshals listener_ports range a
            (reports loader services ∷ es)
          ≡ returns a')
        × Sees (reported_by a.discovered_service_map (reports loader services ∷ es)) a'
  unfolding run
  run-Sees loader services es a known once =
      let (snap, h) = reported-InStep loader services a known once in
      let (a', snap', runs, h', found) = run-InStep es (reported loader services a) snap h in
      (
        a',
        rw (step_reports loader services a) runs,
        subst (λ offered. Sees offered a')
            (fun_ext (λ l. found l ∙ reported_last loader l services a.discovered_service_map es))
            (InStep-Sees a' snap' h'),
      )
