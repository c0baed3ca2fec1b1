-- ===== src/Discovery/Consul/Loader/Strategies.antt =====
-- The watcher strategy does not change what the aggregator ends with.
use flexds.Prelude.{ℕ, ◌≡◌, refl, sym, ap, ◌∙◌, Bool, true, false, Option, List, [], ◌∷◌, arith, ℤ}
use flexds.Results.{Result}
use flexds.Results.Panics.{Run, returns}
use flexds.Strings.{Text, codes, ◌==◌}
use flexds.Strings.Equality.{==_refl}
use flexds.Dict.{Dict, insert}
use flexds.Common.ServiceModel.{DiscoveredService}
use flexds.Xds.Resources.{Message}
use flexds.Xds.Cache.{SnapshotCache, CacheLaws, IsReliable}
use flexds.Xds.SnapshotManager.Push.{pushed, build_and_push_lem}
use flexds.Discovery.Aggregator.{ServiceMap, Aggregator, aggregate, update_services}
use flexds.Discovery.Consul.Watcher.{
  Round, Calls, run, debounce_start, debounce, batch_start, batch, immediate_watcher,
  debounce_watcher, batch_watcher, new_watcher, watch,
}
use flexds.Discovery.Consul.Watcher.Loop.{AllCanHappen, last_or}
use flexds.Discovery.Consul.Watcher.Debounced.{watch-debounce_caught_up}
use flexds.Discovery.Consul.Watcher.Batched.{watch-batch_caught_up}
use flexds.Discovery.Consul.Loader.{Entry, handle, handle_all, gauged, start_watcher}
use flexds.Discovery.Consul.Loader.Entries.{SortLaws}
use flexds.Discovery.Consul.Loader.Discovered.{discover-Lists}

insert_twice :
    {V : Type 0} (k : Text) (v w : V) (m : Dict V) → insert k v (insert k w m) ≡ insert k v m
unfolding insert
insert_twice k v w [] = rw (==_refl k)
insert_twice k v w ((j, u) ∷ m) = ground (arith, ==_refl k, insert_twice k v w m)

-- What a list of calls leaves of the map, where one call of `names` writes `at names`.
abbrev final : (List Text → ServiceMap → ServiceMap) → Calls → ServiceMap → ServiceMap
final write [] m = m
final write (names ∷ calls) m = write (last_or names calls) m

final_same :
    (write : List Text → ServiceMap → ServiceMap) (calls calls' : Calls) (m : ServiceMap)
    → ((d : List Text) → last_or d calls ≡ last_or d calls')
    → final write calls m ≡ final write calls' m
final_same write [] [] m h = refl
final_same write [] (names ∷ calls') m h = absurd (cc (h [], h ([] ∷ [])))
final_same write (names ∷ calls) [] m h = absurd (cc (h [], h ([] ∷ [])))
final_same write (names ∷ calls) (names' ∷ calls') m h = ap (λ last. write last m) (h [])

-- Two watches return, with one map of services.
abbrev pub SameServices : {S : Type 0} → Run (Aggregator S) → Run (Aggregator S) → Type 0
SameServices {S = S} r r' =
    (a : Aggregator S) × (a' : Aggregator S) × (r ≡ returns a)
    × (r' ≡ returns a')
    × (a.discovered_service_map ≡ a'.discovered_service_map)

module _ {E : Type 0} (health : Text → Result E (List Entry))
    (sort : (Entry → Entry → Bool) → List Entry → List Entry) (sorts : SortLaws sort)
    (parse_duration : Text → Option ℤ) (range_meta : Dict Text → Dict Text) {S : Type 0}
    (cache : SnapshotCache S) (laws : CacheLaws cache) (reliable : IsReliable cache)
    (marshals : Message → Bool) (all_marshal : (m : Message) → marshals m ≡ true)
    (listener_ports : List ℕ) (range : ServiceMap → ServiceMap) where
  discovered : List Text → List DiscoveredService
  discovered names = (discover-Lists parse_duration range_meta health sort sorts names).0

  abbrev write : List Text → ServiceMap → ServiceMap
  write names = insert (codes "consul_loader") (discovered names)

  abbrev handler : List Text → Aggregator S → Run (Aggregator S)
  handler = handle health sort parse_duration range_meta cache marshals listener_ports range

  abbrev handler_all : Calls → Aggregator S → Run (Aggregator S)
  handler_all = handle_all health sort parse_duration range_meta cache marshals listener_ports range

  handle_writes :
      (names : List Text) (a : Aggregator S)
      → (a' : Aggregator S) × (handler names a ≡ returns a')
        × (a'.discovered_service_map ≡ write names a.discovered_service_map)
  unfolding handle update_services discovered
  handle_writes names a =
      let m = write names a.discovered_service_map in
      (
        record {
          discovered_service_map = m;
          world =
              pushed cache laws reliable marshals all_marshal listener_ports (aggregate (range m))
                (gauged names a).world;
        },
        rw (
          (discover-Lists parse_duration range_meta health sort sorts names).1,
          build_and_push_lem cache laws reliable marshals all_marshal listener_ports
              (aggregate (range m)) (gauged names a).world,
        ),
        refl,
      )

  write_last :
      (names : List Text) (calls : Calls) (m : ServiceMap)
      → final write calls (write names m) ≡ write (last_or names calls) m
  write_last names [] m = refl
  write_last names (next ∷ calls) m =
      insert_twice (codes "consul_loader") (discovered (last_or next calls)) (discovered names) m

  handle_all_writes :
      (calls : Calls) (a : Aggregator S)
      → (a' : Aggregator S) × (handler_all calls a ≡ returns a')
        × (a'.discovered_service_map ≡ final write calls a.discovered_service_map)
  unfolding handle_all
  handle_all_writes [] a = (a, refl, refl)
  handle_all_writes (names ∷ calls) a =
      let (a1, h, e) = handle_writes names a in
      let (a2, k, f) = handle_all_writes calls a1 in
      (a2, rw h k, f ∙ ap (final write calls) e ∙ write_last names calls a.discovered_service_map)

  same_services :
      (calls calls' : Calls) (a : Aggregator S)
      → ((d : List Text) → last_or d calls ≡ last_or d calls')
      → SameServices (handler_all calls a) (handler_all calls' a)
  same_services calls calls' a h =
      let (a1, k, e) = handle_all_writes calls a in
      let (a2, k', e') = handle_all_writes calls' a in
      (a1, a2, k, k', e ∙ final_same write calls calls' a.discovered_service_map h ∙ sym e')

  abbrev started : Text → List Round → Aggregator S → Run (Aggregator S)
  started = start_watcher health sort parse_duration range_meta cache marshals listener_ports range

  -- Where messages can be marshalled, the cache takes snapshots, sort.Slice sorts and the answers
  -- on the services' health stay the same: in the rounds of one watch, where the timer fires only
  -- while it runs and no update is pending at the end, the strategies `debounce` and `immediate`
  -- return, and leave the aggregator with the same services of every loader.
  pub start_watcher_debounce :
      (rounds : List Round) (a : Aggregator S)
      → AllCanHappen (λ s. s.timer) (debounce 500) debounce_start rounds
      → (run (debounce 500) debounce_start rounds).0.pending_update ≡ false
      → SameServices (started (codes "debounce") rounds a) (started (codes "immediate") rounds a)
  unfolding start_watcher new_watcher ◌==◌
  start_watcher_debounce rounds a h quiet =
      same_services (watch (debounce_watcher 500) rounds) (watch immediate_watcher rounds) a
        (λ d. watch-debounce_caught_up 500 rounds d h quiet)

  -- Where messages can be marshalled, the cache takes snapshots, sort.Slice sorts and the answers
  -- on the services' health stay the same: in the rounds of one watch, where the timer fires only
  -- while it runs and the batch is empty at the end, the strategy `batch` and the one for an empty
  -- text return, and leave the aggregator with the same services of every loader.
  pub start_watcher_batch :
      (rounds : List Round) (a : Aggregator S)
      → AllCanHappen (λ s. s.timer) (batch 5 1000) batch_start rounds
      → (run (batch 5 1000) batch_start rounds).0.batch_count ≡ 0
      → SameServices (started (codes "batch") rounds a) (started [] rounds a)
  unfolding start_watcher new_watcher ◌==◌
  start_watcher_batch rounds a h empty =
      same_services (watch (batch_watcher 5 1000) rounds) (watch immediate_watcher rounds) a
        (λ d. watch-batch_caught_up 5 1000 (omega arith) rounds d h empty)
