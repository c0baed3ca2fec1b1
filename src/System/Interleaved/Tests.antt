-- ===== src/System/Interleaved/Tests.antt =====
-- Loaders and streams at the same time.
use mathlib.Core.List.{Perm, reverse, reverse_perm}
use flexds.Prelude.{
  ◌≡◌, refl, Bool, true, false, none, some, if◌then◌else◌, arith, List, [], ◌∷◌, map,
}
use flexds.Results.{ok, err}
use flexds.Strings.{Text, codes, itoa, ◌==◌}
use flexds.Dict.{insert, lookup}
use flexds.Xds.Resources.{Snapshot}
use flexds.Xds.Cache.{
  MemoryState, found, memory_cache, memory_cache-CacheLaws, memory_cache-IsReliable,
}
use flexds.Xds.Clusters.Served.{served, cluster_of}
use flexds.Xds.SnapshotManager.{reference_key, empty_resources, next_version}
use flexds.Xds.SnapshotManager.Whole.{IsWhole, empty_resources-IsWhole}
use flexds.Xds.Samples.{web, idle, any_message, start}
use flexds.Discovery.Aggregator.{Aggregator, aggregate, new_aggregator}
use flexds.Discovery.Aggregator.Interleaved.Alone.{next_calls}
use flexds.Discovery.Aggregator.Interleaved.{Pc}
use flexds.System.Interleaved.{
  take_turn, State, Turn, first_moves, second_moves, gets, sets, take_turns,
}
use flexds.System.Interleaved.Versions.{Distinct, versions, versions-Distinct}
use flexds.System.Interleaved.Whole.{AllWhole, take_turns-AllWhole}
use flexds.System.Interleaved.Phases.{stored_all}
use flexds.System.Interleaved.OneLoader.{one_loader, one_loader_converges}
use flexds.System.Interleaved.Stale.{calling, stale_node}

abbrev ingress : Text
ingress = codes "ingress"

abbrev yaml : Text
yaml = codes "yaml_loader"

abbrev before : Snapshot
before = record { version = codes "1"; resources = empty_resources }

-- The reference has the empty snapshot.
abbrev running : Aggregator MemoryState
running = new_aggregator (record start {
  cache_state = record start.cache_state { snapshots = (reference_key, before) ∷ [] };
})

abbrev two_loaders : State MemoryState
two_loaders = record (calling running yaml (web ∷ [])) {
  second = next_calls ((codes "consul_loader", idle ∷ web ∷ []) ∷ []);
}

abbrev busy : List Turn
busy = first_moves ∷ gets ingress ∷ second_moves ∷ first_moves ∷ sets 0 ∷ second_moves ∷ []

empty-IsWhole :
    (known : Bool) (snap : Snapshot)
    → found (if known then some before else none) ≡ ok snap
    → IsWhole snap.resources
empty-IsWhole true snap e = let same : before ≡ snap = cc in rw (← same) empty_resources-IsWhole
empty-IsWhole false snap e = absurd (err-ne-ok e)
  where
    err-ne-ok : err (codes "no snapshot found") ≡ ok snap → ⊥
    err-ne-ok e = ground arith

two_loaders-AllWhole : AllWhole memory_cache two_loaders
unfolding lookup
two_loaders-AllWhole = record {
  serves = λ node snap e. empty-IsWhole (reference_key == node) snap e;
  first = tt;
  second = tt;
  carried = tt;
}

take_turns-AllWhole_example :
    AllWhole memory_cache (take_turns memory_cache any_message (8080 ∷ []) reverse two_loaders busy)
take_turns-AllWhole_example =
    take_turns-AllWhole memory_cache memory_cache-CacheLaws memory_cache-IsReliable any_message
      (8080 ∷ []) reverse busy two_loaders two_loaders-AllWhole

versions-Distinct_example : Distinct (
    itoa 1
    ∷ versions memory_cache any_message
        (8080 ∷ [])
        reverse
        two_loaders
        (first_moves ∷ first_moves ∷ busy))
versions-Distinct_example =
    versions-Distinct memory_cache any_message (8080 ∷ []) reverse
      (first_moves ∷ first_moves ∷ busy) two_loaders (omega arith) (omega arith)

-- The first goroutine creates its snapshot in its third step.
one_version :
    versions memory_cache any_message
      (8080 ∷ [])
      reverse
      two_loaders
      (first_moves ∷ second_moves ∷ first_moves ∷ first_moves ∷ [])
    ≡ codes "2" ∷ []
unfolding take_turn itoa
one_version = refl

-- A node's request behind a whole call gets what the call has pushed.
in_order :
    (memory_cache.get_snapshot ingress
      (take_turns memory_cache any_message (8080 ∷ []) reverse (calling running yaml []) (
        first_moves
        ∷ first_moves
        ∷ first_moves
        ∷ first_moves
        ∷ gets ingress
        ∷ sets 0
        ∷ [])).aggregator.world.cache_state)
    ≡ ok (record { version = codes "2"; resources = empty_resources })
unfolding take_turns lookup itoa
in_order = refl

stale_node_example :
    (turns : List Turn) × (a' : Aggregator MemoryState) × (new : Snapshot) × (take_turns
        memory_cache any_message
        (8080 ∷ [])
        reverse
        (calling running yaml (web ∷ []))
        turns
      ≡ record (calling a' yaml []) { first = next_calls [] })
    × (memory_cache.get_snapshot ingress a'.world.cache_state ≡ ok before)
    × (memory_cache.get_snapshot reference_key a'.world.cache_state ≡ ok new)
    × (new.version ≡ itoa (next_version 1))
    × Perm new.resources.clusters (map cluster_of (served (aggregate (insert yaml (web ∷ []) []))))
unfolding lookup ◌==◌
stale_node_example =
    stale_node memory_cache memory_cache-CacheLaws memory_cache-IsReliable any_message (λ m. refl)
      (8080 ∷ []) reverse reverse_perm ingress yaml (web ∷ []) running before (cc) refl

abbrev one_call : List Turn
one_call =
    first_moves
    ∷ gets ingress
    ∷ first_moves
    ∷ first_moves
    ∷ first_moves
    ∷ sets 0
    ∷ first_moves
    ∷ first_moves
    ∷ first_moves
    ∷ []

abbrev after_call : State MemoryState
after_call =
    take_turns memory_cache any_message (8080 ∷ []) reverse
      (one_loader running ((yaml, web ∷ []) ∷ [])) one_call

one_loader_converges_example :
    (after_call.first.pc ≡ Pc.idle)
    × (after_call.first.calls ≡ [])
    × (after_call.aggregator.discovered_service_map ≡ stored_all ((yaml, web ∷ []) ∷ []) [])
    × (snap : Snapshot) × (memory_cache.get_snapshot reference_key
          after_call.aggregator.world.cache_state
        ≡ ok snap)
    × Perm snap.resources.clusters
        (map cluster_of (served (aggregate (stored_all ((yaml, web ∷ []) ∷ []) []))))
one_loader_converges_example =
    one_loader_converges memory_cache memory_cache-CacheLaws memory_cache-IsReliable any_message
      (λ m. refl) (8080 ∷ []) reverse reverse_perm (yaml, web ∷ []) [] one_call running
      (tt, ((λ e. cc), (tt, (tt, (tt, (tt, (tt, (tt, (tt, tt))))))))) (omega arith)
