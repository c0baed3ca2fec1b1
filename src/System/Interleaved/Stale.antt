-- ===== src/System/Interleaved/Stale.antt =====
-- A push between the two steps of OnStreamRequest.
use mathlib.Core.List.{Perm}
use flexds.Prelude.{ℕ, zero, suc, ◌≡◌, ◌≢◌, refl, ◌∙◌, ap, inl, Bool, true, List, [], ◌∷◌, map}
use flexds.Results.{ok}
use flexds.Strings.{Text, itoa}
use flexds.Dict.{insert}
use flexds.Common.ServiceModel.{DiscoveredService}
use flexds.Xds.Resources.{Message, Snapshot}
use flexds.Xds.Cache.{SnapshotCache, CacheLaws, IsReliable}
use flexds.Xds.Clusters.Served.{served, cluster_of}
use flexds.Xds.SnapshotManager.{reference_key, snapshot_of, next_version}
use flexds.Xds.SnapshotManager.Distribute.{distribute_reaches}
use flexds.Xds.SnapshotManager.Push.{resources_of}
use flexds.Discovery.Aggregator.{ServiceMap, Aggregator, aggregate}
use flexds.Discovery.Aggregator.Pushed.{pushed_clusters}
use flexds.Discovery.Aggregator.Interleaved.{Thread}
use flexds.Discovery.Aggregator.Interleaved.Alone.{next_calls, steps}
use flexds.Discovery.Aggregator.Interleaved.Lost.{after_push, call_ends}
use flexds.System.Interleaved.{
  State, Turn, first_moves, gets, sets, get_reference, set_own, take_turn, take_turns,
}

abbrev moves : ℕ → List Turn → List Turn
moves zero rest = rest
moves (suc n) rest = first_moves ∷ moves n rest

-- A call that the first goroutine makes next, and no other goroutine on its way.
abbrev pub calling : {S : Type 0} → Aggregator S → Text → List DiscoveredService → State S
calling a loader services = record {
  aggregator = a;
  first = next_calls ((loader, services) ∷ []);
  second = next_calls [];
  callbacks = [];
}

module _ {S : Type 0} (cache : SnapshotCache S) (marshals : Message → Bool)
    (listener_ports : List ℕ) (range : ServiceMap → ServiceMap) where
  take_turns-moves :
      (n : ℕ) (rest : List Turn) (s : State S) (b : Aggregator S) (t : Thread)
      → steps cache marshals listener_ports range n (s.aggregator, s.first) ≡ (b, t)
      → take_turns cache marshals listener_ports range s (moves n rest)
        ≡ take_turns cache marshals listener_ports range
            (record s { aggregator = b; first = t })
            rest
  unfolding take_turns take_turn
  take_turns-moves zero rest s b t e =
      ap
        (λ r.
          take_turns cache marshals listener_ports range
            (record s { aggregator = r.0; first = r.1 }) rest)
        e
  take_turns-moves (suc n) rest s b t e =
      take_turns-moves n rest (take_turn cache marshals listener_ports range s first_moves) b t e

module _ {S : Type 0} (cache : SnapshotCache S) (laws : CacheLaws cache)
    (reliable : IsReliable cache) (marshals : Message → Bool)
    (all_marshal : (m : Message) → marshals m ≡ true) (listener_ports : List ℕ)
    (range : ServiceMap → ServiceMap) (any_order : (m : ServiceMap) → Perm (range m) m) where
  -- The aggregator after the call, and then after the callback has set the older snapshot.
  abbrev updated : Aggregator S → Text → List DiscoveredService → Aggregator S
  updated a loader services =
      let m = insert loader services a.discovered_service_map in
      record {
        discovered_service_map = m;
        world =
            after_push cache laws reliable marshals all_marshal listener_ports range any_order
              (aggregate (range m)) a.world;
      }

  abbrev overwritten : Text → Snapshot → Aggregator S → Aggregator S
  overwritten node old a =
      let w = a.world in
      record a { world = record w { cache_state = (cache.set_snapshot node old w.cache_state).0 } }

  -- Where messages can be marshalled and the cache takes snapshots: for any update, by one loader
  -- alone, and any request of a node there is a schedule in which the callback gets the reference
  -- snapshot before the update and sets it behind it. When both have returned the reference has
  -- the clusters of the updated map and the next version, while the node has the snapshot from
  -- before the update.
  pub stale_node :
      (node loader : Text) (services : List DiscoveredService) (a : Aggregator S) (old : Snapshot)
      → node ≢ reference_key
      → cache.get_snapshot reference_key a.world.cache_state ≡ ok old
      → let m = insert loader services a.discovered_service_map in
        (turns : List Turn) × (a' : Aggregator S) × (new : Snapshot) × (take_turns cache marshals
            listener_ports range
            (calling a loader services)
            turns
          ≡ record (calling a' loader []) { first = next_calls [] })
        × (cache.get_snapshot node a'.world.cache_state ≡ ok old)
        × (cache.get_snapshot reference_key a'.world.cache_state ≡ ok new)
        × (new.version ≡ itoa (next_version a.world.version))
        × Perm new.resources.clusters (map cluster_of (served (aggregate m)))
  unfolding take_turns take_turn get_reference set_own
  stale_node node loader services a old other found =
      let m = insert loader services a.discovered_service_map in
      let b = updated a loader services in
      let new =
        snapshot_of cache a.world (resources_of listener_ports (served (aggregate (range m)))) in
      let (n, ends) =
        call_ends cache laws reliable marshals all_marshal listener_ports range any_order loader
          services a in
      let s = record (calling a loader services) { callbacks = (node, old) ∷ [] } in
      (
        gets node ∷ moves n (sets 0 ∷ []),
        overwritten node old b,
        new,
        ap
              (λ r.
                take_turns cache marshals listener_ports range
                  (get_reference cache marshals listener_ports range node r
                    (calling a loader services))
                  (moves n (sets 0 ∷ [])))
              found
            ∙ take_turns-moves cache marshals listener_ports range n (sets 0 ∷ []) s b
                (next_calls []) ends,
        laws.get-set_self node old b.world.cache_state (reliable.sets node old _),
        laws.get-set_other node reference_key old b.world.cache_state other
            ∙ distribute_reaches cache laws reliable new reference_key a.world.cache_state
                (inl refl),
        refl,
        pushed_clusters range any_order listener_ports m,
      )
