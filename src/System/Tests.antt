-- ===== src/System/Tests.antt =====
-- Two loaders, and a node that is connected throughout.
use mathlib.Core.List.{Memᴰ, reverse, reverse_perm}
use mathlib.Mathlib.Data.Multiset.Defs.{of_list}
use flexds.Prelude.{false, ◌++◌, arith, ◌≡◌, refl, some, none, List, [], ◌∷◌}
use flexds.Results.Panics.{returns}
use flexds.Strings.{Text, codes}
use flexds.Xds.Cache.{MemoryState, memory_cache, memory_cache-CacheLaws, memory_cache-IsReliable}
use flexds.Xds.Samples.{web, idle, any_message, start}
use flexds.Discovery.Aggregator.{Aggregator, new_aggregator}
use flexds.Results.{ok, err}
use flexds.Discovery.Consul.Loader.Samples.{
  insertion_sort, insertion_sort-SortLaws, health, no_duration, as_is,
}
use flexds.System.Program.{
  Happening, consul_changed, file_loaded, apps_polled, node_requests, events_of, run_program,
}
use flexds.System.Refines.EndToEnd.{run_program-Sees}
use flexds.System.{Event, reports, requests, run, last_report}
use flexds.System.Refines.{Sees, reported_by}
use flexds.System.Refines.Implements.{replay, run-Implements}
use flexds.System.Refines.Arrives.{ArrivesAt, timed_debounce_arrives, timed_batch_arrives}
use flexds.Discovery.Aggregator.Abstract.{offered}
use flexds.Discovery.Consul.Watcher.{Calls, failed, answered, debounce, batch}
use flexds.Discovery.Consul.Timed.{Turn, query, timed}
use flexds.Discovery.Consul.Timed.Debounced.{timed_debounce}
use flexds.Discovery.Consul.Timed.Batched.{timed_batch}
use flexds.Xds.Resources.{Snapshot}
use flexds.Common.ServiceModel.{DiscoveredService}
use flexds.Xds.Clusters.Served.{served}
use flexds.Xds.SnapshotManager.Push.{resources_of}

abbrev a_morning : List Event
a_morning =
    reports (codes "yaml_loader") (web ∷ idle ∷ [])
    ∷ requests (codes "edge")
    ∷ reports (codes "consul_loader") []
    ∷ []

consul_last :
    last_report
      (codes "consul_loader")
      none
      (reports (codes "consul_loader") (web ∷ []) ∷ a_morning)
    ≡ some []
unfolding last_report
consul_last = refl

abbrev morning : List Event
morning = reports (codes "consul_loader") (web ∷ []) ∷ a_morning

run-Implements_example :
    (a' : Aggregator MemoryState) × (snap : Snapshot) × (run memory_cache any_message
        (8080 ∷ [])
        reverse
        (new_aggregator start)
        morning
      ≡ returns a')
    × (of_list a'.discovered_service_map ≡ replay (of_list []) morning)
    × (memory_cache.get_snapshot (codes "ingress") a'.world.cache_state ≡ ok snap)
    × ((found : List DiscoveredService) × (of_list found ≡ offered (replay (of_list []) morning))
        × (snap.resources ≡ resources_of (8080 ∷ []) (served found)))
run-Implements_example =
    run-Implements memory_cache memory_cache-CacheLaws memory_cache-IsReliable any_message
      (λ m. refl) (8080 ∷ []) reverse reverse_perm (codes "ingress") (codes "consul_loader")
      (web ∷ []) a_morning (new_aggregator start) (Memᴰ.head refl) tt

abbrev both_names : List Text
both_names = codes "web" ∷ codes "api" ∷ []

-- Two changes, 1.5 seconds apart, and a query that runs out.
abbrev two_changes : List Turn
two_changes = query 20 (answered 7 []) ∷ query 1500 (answered 9 both_names) ∷ []

abbrev no_change : List Turn
no_change = query 2000 (answered 9 both_names) ∷ []

abbrev whole_watch : List Turn
whole_watch = two_changes ++ (no_change ++ query 1 (failed false) ∷ [])

abbrev Arrives : Calls → Type 0
Arrives calls =
    ArrivesAt memory_cache memory_cache-CacheLaws memory_cache-IsReliable any_message (λ m. refl)
      (8080 ∷ []) reverse reverse_perm (codes "ingress") health insertion_sort
      insertion_sort-SortLaws no_duration as_is both_names calls (new_aggregator start)

timed_debounce_arrives_example : Arrives (timed_debounce 500 whole_watch).1
unfolding timed debounce
timed_debounce_arrives_example =
    timed_debounce_arrives memory_cache memory_cache-CacheLaws memory_cache-IsReliable any_message
      (λ m. refl) (8080 ∷ []) reverse reverse_perm (codes "ingress") health insertion_sort
      insertion_sort-SortLaws no_duration as_is 500 two_changes no_change 1 (failed false)
      both_names (new_aggregator start) (tt, (tt, tt)) (refl, tt) refl (omega arith) refl
      (Memᴰ.head refl) tt

timed_batch_arrives_example : Arrives (timed_batch 5 1000 whole_watch).1
unfolding timed batch
timed_batch_arrives_example =
    timed_batch_arrives memory_cache memory_cache-CacheLaws memory_cache-IsReliable any_message
      (λ m. refl) (8080 ∷ []) reverse reverse_perm (codes "ingress") health insertion_sort
      insertion_sort-SortLaws no_duration as_is 5 1000 two_changes no_change 1 (failed false)
      both_names (new_aggregator start) (omega arith) (tt, (tt, tt)) (refl, tt) refl (omega arith)
      refl (Memᴰ.head refl) tt

abbrev busy_morning : List (Happening Text)
busy_morning =
    node_requests (codes "edge")
    ∷ file_loaded (err (codes "no such file"))
    ∷ consul_changed [] (λ svc. err (codes "down"))
    ∷ apps_polled (ok [])
    ∷ []

run_program-Sees_example :
    (a' : Aggregator MemoryState) × (run_program insertion_sort no_duration as_is memory_cache
        any_message
        (8080 ∷ [])
        reverse
        (new_aggregator start)
        (consul_changed (codes "web" ∷ codes "api" ∷ []) health ∷ busy_morning)
      ≡ returns a')
    × Sees memory_cache memory_cache-CacheLaws memory_cache-IsReliable any_message
        (λ m. refl)
        (8080 ∷ [])
        reverse
        reverse_perm
        (codes "ingress")
        (reported_by [] (
          events_of insertion_sort no_duration as_is
            (consul_changed (codes "web" ∷ codes "api" ∷ []) health ∷ busy_morning)))
        a'
run_program-Sees_example =
    run_program-Sees memory_cache memory_cache-CacheLaws memory_cache-IsReliable any_message
      (λ m. refl) (8080 ∷ []) reverse reverse_perm (codes "ingress") insertion_sort
      insertion_sort-SortLaws no_duration as_is
      (consul_changed (codes "web" ∷ codes "api" ∷ []) health) busy_morning (new_aggregator start)
      (Memᴰ.head refl) tt tt (tt, (tt, (tt, (tt, (refl, tt)))))
