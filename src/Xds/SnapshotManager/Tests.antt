-- ===== src/Xds/SnapshotManager/Tests.antt =====
-- Pushes to a cache that keeps the snapshots in memory.
use mathlib.Core.List.{Memᴰ}
use flexds.Prelude.{◌≡◌, refl, [], ◌∷◌, inr}
use flexds.Results.{ok}
use flexds.Results.Panics.{returns}
use flexds.Strings.{codes}
use flexds.Xds.Samples.{web, idle, any_message, start}
use flexds.Xds.Cache.{MemoryState, memory_cache, memory_cache-CacheLaws, memory_cache-IsReliable}
use flexds.Xds.SnapshotManager.{World, snapshot_of, build_and_push}
use flexds.Xds.SnapshotManager.Push.{
  resources_of, pushed, build_and_push_lem, build_and_push_reaches,
}

abbrev pushed_web : World MemoryState
pushed_web =
    pushed memory_cache memory_cache-CacheLaws memory_cache-IsReliable any_message (λ m. refl)
      (18080 ∷ []) (idle ∷ web ∷ []) start

web_pushed :
    build_and_push memory_cache any_message (18080 ∷ []) (idle ∷ web ∷ []) start
    ≡ returns pushed_web
web_pushed =
    build_and_push_lem memory_cache memory_cache-CacheLaws memory_cache-IsReliable any_message
      (λ m. refl) (18080 ∷ []) (idle ∷ web ∷ []) start

build_and_push_reaches_example :
    (w' : World MemoryState) × (build_and_push memory_cache any_message
        (18080 ∷ [])
        (idle ∷ web ∷ [])
        start
      ≡ returns w')
    × (memory_cache.get_snapshot (codes "ingress") w'.cache_state
        ≡ ok (snapshot_of memory_cache start (resources_of (18080 ∷ []) (web ∷ []))))
build_and_push_reaches_example =
    build_and_push_reaches memory_cache memory_cache-CacheLaws memory_cache-IsReliable any_message
      (λ m. refl) (18080 ∷ []) (idle ∷ web ∷ []) start (codes "ingress") (inr (Memᴰ.head refl))
