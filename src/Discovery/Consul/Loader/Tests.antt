-- ===== src/Discovery/Consul/Loader/Tests.antt =====
-- A handler with a concrete sort, over two entries of one service.
use mathlib.Core.List.Perm
use flexds.Prelude.{◌≡◌, refl, List, [], ◌∷◌}
use flexds.Results.{Result, ok}
use flexds.Results.Panics.{Run, returns}
use flexds.Strings.{Text, codes, ◌==◌}
use flexds.Common.ServiceModel.{DiscoveredService}
use flexds.Xds.Cache.{MemoryState, memory_cache, memory_cache-CacheLaws, memory_cache-IsReliable}
use flexds.Xds.Samples.{any_message, start}
use flexds.Discovery.Aggregator.{Aggregator, new_aggregator}
use flexds.Discovery.Consul.Watcher.{
  Round, fired, fetched, answered, run, immediate, watch, new_watcher, debounce, batch,
}
use flexds.Discovery.Consul.Loader.{discover, start_watcher}
use flexds.Discovery.Consul.Loader.Samples.{
  insertion_sort, insertion_sort-SortLaws, health, no_duration, as_is,
}
use flexds.Discovery.Consul.Loader.Discovered.{Lists, discover-Lists}
use flexds.Discovery.Consul.Loader.Published.{Leads}
use flexds.Discovery.Consul.Loader.Counted.{Counts, start_watcher-Counts}
use flexds.Discovery.Consul.Client.{ClientConfig, watch_catalog}
use flexds.Discovery.Consul.Client.Watches.{watch_catalog_immediate}
use flexds.Discovery.Consul.Loader.Strategies.{
  SameServices, start_watcher_debounce, start_watcher_batch,
}

discover-Lists_example :
    (services : List DiscoveredService) × (discover health insertion_sort no_duration as_is
        (codes "web" ∷ codes "api" ∷ [])
      ≡ returns services)
    × Lists no_duration as_is health (codes "web" ∷ codes "api" ∷ []) services
discover-Lists_example =
    discover-Lists no_duration as_is health insertion_sort insertion_sort-SortLaws
      (codes "web" ∷ codes "api" ∷ [])

abbrev rounds : List Round
rounds =
    fetched (answered 3 (codes "web" ∷ []))
    ∷ fetched (answered 5 (codes "web" ∷ codes "api" ∷ []))
    ∷ fired
    ∷ []

abbrev started : Text → Run (Aggregator MemoryState)
started strategy =
    start_watcher health insertion_sort no_duration as_is memory_cache any_message (8080 ∷ []) as_is
      strategy rounds (new_aggregator start)

start_watcher_debounce_example :
    SameServices (started (codes "debounce")) (started (codes "immediate"))
unfolding debounce run
start_watcher_debounce_example =
    start_watcher_debounce health insertion_sort insertion_sort-SortLaws no_duration as_is
      memory_cache memory_cache-CacheLaws memory_cache-IsReliable any_message (λ m. refl)
      (8080 ∷ []) as_is rounds (new_aggregator start) (tt, (tt, (tt, tt))) refl

start_watcher_batch_example : SameServices (started (codes "batch")) (started [])
unfolding batch run
start_watcher_batch_example =
    start_watcher_batch health insertion_sort insertion_sort-SortLaws no_duration as_is memory_cache
      memory_cache-CacheLaws memory_cache-IsReliable any_message (λ m. refl) (8080 ∷ []) as_is
      rounds (new_aggregator start) (tt, (tt, (tt, tt))) refl

-- A client that keeps its configuration.
abbrev config_of : ClientConfig Text Text → Result Text (ClientConfig Text Text)
config_of config = ok config

abbrev watched : Run (Aggregator MemoryState)
watched =
    watch_catalog (λ req. req.url) (codes "default") config_of (λ client. health) (λ client. rounds)
      insertion_sort no_duration as_is memory_cache any_message (8080 ∷ []) as_is
      (codes "localhost:8500") (codes "immediate") (new_aggregator start)

watch_catalog_immediate_example :
    (a' : Aggregator MemoryState) × (watched ≡ returns a')
    × Leads health insertion_sort insertion_sort-SortLaws no_duration as_is memory_cache
        memory_cache-CacheLaws memory_cache-IsReliable any_message
        (λ m. refl)
        (8080 ∷ [])
        as_is
        (λ m. Perm.refl m)
        (codes "web" ∷ codes "api" ∷ [])
        (new_aggregator start)
        a'
watch_catalog_immediate_example =
    watch_catalog_immediate (λ req. req.url) (codes "default") config_of (λ client. health)
      (λ client. rounds) insertion_sort insertion_sort-SortLaws no_duration as_is memory_cache
      memory_cache-CacheLaws memory_cache-IsReliable any_message (λ m. refl) (8080 ∷ []) as_is
      (λ m. Perm.refl m) (codes "localhost:8500") (codes "immediate") (new_aggregator start)
      (λ e. cc) (λ e. cc)

start_watcher-Counts_example :
    (a' : Aggregator MemoryState) × (started (codes "immediate") ≡ returns a')
    × Counts health insertion_sort insertion_sort-SortLaws no_duration as_is memory_cache
        memory_cache-CacheLaws memory_cache-IsReliable any_message
        (λ m. refl)
        (8080 ∷ [])
        as_is
        ((codes "web" ∷ []) ∷ (codes "web" ∷ codes "api" ∷ []) ∷ [])
        start.metrics
        a'.world.metrics
unfolding run immediate watch new_watcher ◌==◌
start_watcher-Counts_example =
    start_watcher-Counts health insertion_sort insertion_sort-SortLaws no_duration as_is
      memory_cache memory_cache-CacheLaws memory_cache-IsReliable any_message (λ m. refl)
      (8080 ∷ []) as_is (codes "immediate") rounds (new_aggregator start)
