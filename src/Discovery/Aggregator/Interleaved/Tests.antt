-- ===== src/Discovery/Aggregator/Interleaved/Tests.antt =====
-- Two loaders report at the same time.
use mathlib.Core.List.{Perm, reverse, reverse_perm}
use flexds.Prelude.{◌≡◌, refl, Bool, true, false, List, [], ◌∷◌, map}
use flexds.Results.{ok}
use flexds.Strings.{Text, codes}
use flexds.Dict.{insert}
use flexds.Xds.Resources.{Snapshot}
use flexds.Xds.Cache.{MemoryState, memory_cache, memory_cache-CacheLaws, memory_cache-IsReliable}
use flexds.Xds.Clusters.Served.{served, cluster_of}
use flexds.Xds.SnapshotManager.{reference_key}
use flexds.Xds.Samples.{web, idle, any_message, start}
use flexds.Discovery.Aggregator.{Aggregator, aggregate, new_aggregator}
use flexds.Discovery.Aggregator.Interleaved.{Call, Pc, run}
use flexds.Discovery.Aggregator.Interleaved.Alone.{next_calls}
use flexds.Discovery.Aggregator.Interleaved.Lost.{lost_update}

abbrev consul : Text
consul = codes "consul_loader"

abbrev yaml : Text
yaml = codes "yaml_loader"

abbrev from_yaml : List Call
from_yaml = (yaml, web ∷ []) ∷ []

abbrev from_consul : List Call
from_consul = (consul, idle ∷ []) ∷ (consul, web ∷ idle ∷ []) ∷ []

-- Both have stored, and only then does the first collect.
both_stored :
    (run memory_cache any_message
      (8080 ∷ [])
      (λ m. m)
      (true ∷ false ∷ true ∷ [])
      (new_aggregator start)
      (next_calls from_yaml)
      (next_calls from_consul)).1.0.pc
    ≡ Pc.collected (web ∷ idle ∷ [])
unfolding run
both_stored = refl

lost_update_example :
    (schedule : List Bool) × (a' : Aggregator MemoryState) × (snap : Snapshot) × (run memory_cache
        any_message
        (8080 ∷ [])
        reverse
        schedule
        (new_aggregator start)
        (next_calls ((yaml, []) ∷ []))
        (next_calls ((consul, web ∷ []) ∷ []))
      ≡ (a', (next_calls [], next_calls [])))
    × (a'.discovered_service_map ≡ insert consul (web ∷ []) (insert yaml [] []))
    × (memory_cache.get_snapshot reference_key a'.world.cache_state ≡ ok snap)
    × Perm snap.resources.clusters (map cluster_of (served (aggregate (insert yaml [] []))))
lost_update_example =
    lost_update memory_cache memory_cache-CacheLaws memory_cache-IsReliable any_message (λ m. refl)
      (8080 ∷ []) reverse reverse_perm yaml consul [] (web ∷ []) (new_aggregator start)
