-- ===== src/Discovery/Aggregator/Interleaved/Lost.antt =====
-- A schedule after which Envoy's configuration lacks what was reported last.
use mathlib.Core.List.{Perm}
use flexds.Prelude.{ℕ, zero, suc, ◌≡◌, refl, ◌∙◌, ap, inl, Bool, true, false, List, [], ◌∷◌, map}
use flexds.Results.{ok}
use flexds.Strings.{Text}
use flexds.Dict.{insert}
use flexds.Common.ServiceModel.{DiscoveredService}
use flexds.Xds.Resources.{Message, Snapshot}
use flexds.Xds.Cache.{SnapshotCache, CacheLaws, IsReliable}
use flexds.Xds.Clusters.Served.{served, cluster_of}
use flexds.Xds.SnapshotManager.{World, reference_key, snapshot_of}
use flexds.Xds.SnapshotManager.Distribute.{distribute_reaches}
use flexds.Xds.SnapshotManager.Push.{pushed, resources_of, build_and_push_lem}
use flexds.Discovery.Aggregator.{ServiceMap, Aggregator, aggregate, update_services}
use flexds.Discovery.Aggregator.Pushed.{pushed_clusters}
use flexds.Discovery.Aggregator.Interleaved.{Pc, Thread, resume, advance, run}
use flexds.Discovery.Aggregator.Interleaved.Alone.{
  next_calls, steps, Reaches, collected-Reaches, update_services_alone,
}

abbrev firsts : ℕ → List Bool → List Bool
firsts zero rest = rest
firsts (suc n) rest = true ∷ firsts n rest

abbrev seconds : ℕ → List Bool → List Bool
seconds zero rest = rest
seconds (suc n) rest = false ∷ seconds n rest

module _ {S : Type 0} (cache : SnapshotCache S) (marshals : Message → Bool)
    (listener_ports : List ℕ) (range : ServiceMap → ServiceMap) where
  run-firsts :
      (n : ℕ) (rest : List Bool) (a b : Aggregator S) (t t' u : Thread)
      → steps cache marshals listener_ports range n (a, t) ≡ (b, t')
      → run cache marshals listener_ports range (firsts n rest) a t u
        ≡ run cache marshals listener_ports range rest b t' u
  unfolding run
  run-firsts zero rest a b t t' u e =
      ap (λ r. run cache marshals listener_ports range rest r.0 r.1 u) e
  run-firsts (suc n) rest a b t t' u e =
      let r = advance cache marshals listener_ports range (a, t) in
      run-firsts n rest r.0 b r.1 t' u e

  run-seconds :
      (n : ℕ) (rest : List Bool) (a b : Aggregator S) (t u u' : Thread)
      → steps cache marshals listener_ports range n (a, u) ≡ (b, u')
      → run cache marshals listener_ports range (seconds n rest) a t u
        ≡ run cache marshals listener_ports range rest b t u'
  unfolding run
  run-seconds zero rest a b t u u' e =
      ap (λ r. run cache marshals listener_ports range rest r.0 t r.1) e
  run-seconds (suc n) rest a b t u u' e =
      let r = advance cache marshals listener_ports range (a, u) in
      run-seconds n rest r.0 b t r.1 u' e

module _ {S : Type 0} (cache : SnapshotCache S) (laws : CacheLaws cache)
    (reliable : IsReliable cache) (marshals : Message → Bool)
    (all_marshal : (m : Message) → marshals m ≡ true) (listener_ports : List ℕ)
    (range : ServiceMap → ServiceMap) (any_order : (m : ServiceMap) → Perm (range m) m) where
  abbrev pub after_push : List DiscoveredService → World S → World S
  after_push = pushed cache laws reliable marshals all_marshal listener_ports

  -- A push of services that have been collected ends in finitely many steps.
  push_ends :
      (all : List DiscoveredService) (a : Aggregator S)
      → Reaches cache marshals listener_ports range
          (a, record { pc = Pc.collected all; calls = [] })
          (record a { world = after_push all a.world }, next_calls [])
  push_ends all a =
      rw (build_and_push_lem cache laws reliable marshals all_marshal listener_ports all a.world) at
        (collected-Reaches cache marshals listener_ports range all a [])

  pub call_ends :
      (loader : Text) (services : List DiscoveredService) (a : Aggregator S)
      → let m = insert loader services a.discovered_service_map in
        Reaches cache marshals listener_ports range
          (a, next_calls ((loader, services) ∷ []))
          (
            record { discovered_service_map = m; world = after_push (aggregate (range m)) a.world },
            next_calls [],
          )
  unfolding update_services
  call_ends loader services a =
      let m = insert loader services a.discovered_service_map in
      rw
        (build_and_push_lem cache laws reliable marshals all_marshal listener_ports
          (aggregate (range m)) a.world)
        at (update_services_alone cache marshals listener_ports range loader services [] a)

  -- Where messages can be marshalled and the cache takes snapshots: for any two updates there is a
  -- schedule of their steps after which both calls have returned and the map has both reports, but
  -- the reference snapshot has just the clusters of the map with the first one.
  pub lost_update :
      (loader other : Text) (services others : List DiscoveredService) (a : Aggregator S)
      → let first = insert loader services a.discovered_service_map in
        (schedule : List Bool) × (a' : Aggregator S) × (snap : Snapshot) × (run cache marshals
            listener_ports range schedule a
            (next_calls ((loader, services) ∷ []))
            (next_calls ((other, others) ∷ []))
          ≡ (a', (next_calls [], next_calls [])))
        × (a'.discovered_service_map ≡ insert other others first)
        × (cache.get_snapshot reference_key a'.world.cache_state ≡ ok snap)
        × Perm snap.resources.clusters (map cluster_of (served (aggregate first)))
  unfolding run advance resume
  lost_update loader other services others a =
      let first = insert loader services a.discovered_service_map in
      let all = aggregate (range first) in
      let both = insert other others first in
      let a1 : Aggregator S = record a { discovered_service_map = first } in
      let a2 : Aggregator S = record {
        discovered_service_map = both;
        world = after_push (aggregate (range both)) a.world;
      } in
      let waits : Thread = record { pc = Pc.collected all; calls = [] } in
      let (n, second) = call_ends other others a1 in
      let (k, rest) = push_ends all a2 in
      (
        true ∷ true ∷ seconds n (firsts k []),
        record a2 { world = after_push all a2.world },
        snapshot_of cache a2.world (resources_of listener_ports (served all)),
        run-seconds cache marshals listener_ports range n (firsts k []) a1 a2 waits _ _ second
            ∙ run-firsts cache marshals listener_ports range k [] a2 _ waits _ (next_calls []) rest,
        refl,
        distribute_reaches cache laws reliable _ reference_key a2.world.cache_state (inl refl),
        pushed_clusters range any_order listener_ports first,
      )
