-- ===== src/Xds/Server/Tests.antt =====
-- A node that connects, and one that is connected throughout.
use mathlib.Core.List.{Memᴰ}
use flexds.Prelude.{◌≡◌, refl, none, some, [], ◌∷◌}
use flexds.Results.Panics.{returns, panics}
use flexds.Strings.{codes}
use flexds.Dict.{lookup}
use flexds.Xds.Samples.{web, any_message, start}
use flexds.Xds.Cache.{MemoryState, memory_cache, memory_cache-CacheLaws, memory_cache-IsReliable}
use flexds.Xds.SnapshotManager.{World, reference_key, snapshot_of}
use flexds.Xds.SnapshotManager.Push.{resources_of}
use flexds.Xds.Server.{on_stream_request}
use flexds.Xds.Server.Callbacks.{
  opened, request as named, closed, response, callback, callbacks, serve, callbacks_exact,
}
use flexds.Xds.Server.Requests.{on_stream_request_early}
use flexds.Xds.Server.Streams.{push, request, run, IsCurrent, run-IsCurrent}

early_request :
    on_stream_request memory_cache (codes "edge") start.cache_state
    ≡ (start.cache_state, some (codes "no snapshot found"))
unfolding lookup
early_request =
    on_stream_request_early memory_cache (codes "edge") start.cache_state
      (codes "no snapshot found") refl

run-IsCurrent_example :
    (w' : World MemoryState) × (run memory_cache any_message
        (18080 ∷ [])
        start
        (push (web ∷ []) ∷ request (codes "edge") ∷ push [] ∷ request (codes "ingress") ∷ [])
      ≡ returns w')
    × IsCurrent memory_cache (codes "ingress") w'.cache_state
run-IsCurrent_example =
    run-IsCurrent memory_cache memory_cache-CacheLaws memory_cache-IsReliable any_message
      (λ m. refl) (18080 ∷ []) (codes "ingress") (web ∷ [])
      (request (codes "edge") ∷ push [] ∷ request (codes "ingress") ∷ []) start (Memᴰ.head refl)

-- A cache with a reference snapshot.
abbrev seeded : MemoryState
seeded =
    (memory_cache.set_snapshot reference_key (snapshot_of memory_cache start (resources_of [] []))
      start.cache_state).0

-- A stream that is closed before a request has named its node.
unnamed : callback memory_cache (closed 3 none) start.cache_state ≡ panics
unfolding callback
unnamed = refl

callbacks_exact_example :
    callbacks memory_cache
      (opened 1 (codes "lds")
        ∷ named 1 (some (codes "edge"))
        ∷ response 1 (some (codes "edge")) none
        ∷ [])
      seeded
    ≡ returns (serve memory_cache (codes "edge" ∷ []) seeded)
callbacks_exact_example =
    callbacks_exact memory_cache
      (opened 1 (codes "lds")
        ∷ named 1 (some (codes "edge"))
        ∷ response 1 (some (codes "edge")) none
        ∷ [])
      seeded
