-- ===== src/Discovery/Consul/Loader/Counted.antt =====
-- The metrics behind a watch.
use flexds.Prelude.{
  ℕ, ℤ, ◌+◌, ◌≤◌, ◌≡◌, refl, ◌∙◌, Bool, true, Option, List, [], ◌∷◌, length, arith,
}
use flexds.Results.{Result}
use flexds.Results.Panics.{returns}
use flexds.Strings.{Text, codes}
use flexds.Dict.{Dict, insert}
use flexds.Common.Telemetry.{Metrics}
use flexds.Common.ServiceModel.{DiscoveredService}
use flexds.Xds.Resources.{Message}
use flexds.Xds.Clusters.Served.{served}
use flexds.Xds.Cache.{SnapshotCache, CacheLaws, IsReliable}
use flexds.Xds.SnapshotManager.Push.{pushed, count_push, build_and_push_lem}
use flexds.Discovery.Aggregator.{ServiceMap, Aggregator, aggregate, update_services}
use flexds.Discovery.Consul.Watcher.{Round, Calls, new_watcher, watch}
use flexds.Discovery.Consul.Watcher.Loop.{last_or}
use flexds.Discovery.Consul.Loader.{
  Entry, handle, handle_all, gauged, strategy_or_default, start_watcher,
}
use flexds.Discovery.Consul.Loader.Entries.{SortLaws}
use flexds.Discovery.Consul.Loader.Discovered.{discover-Lists}

-- The gauge behind some calls: the number of names in the last one.
abbrev pub gauge_after : Calls → ℕ → ℕ
gauge_after [] n = n
gauge_after (names ∷ calls) n = length (last_or names calls)

gauge_after_last :
    (names : List Text) (calls : Calls) (n : ℕ)
    → n ≡ length names
    → gauge_after calls n ≡ length (last_or names calls)
gauge_after_last names [] n e = e
gauge_after_last names (next ∷ calls) n e = refl

count_push_gauge :
    (services : List DiscoveredService) (m : Metrics)
    → (count_push services m).services_discovered ≡ m.services_discovered
count_push_gauge [] m = refl
count_push_gauge (svc ∷ services) m = refl

count_push_once :
    (services : List DiscoveredService) (m : Metrics)
    → (m.snapshots_pushed ≤ (count_push services m).snapshots_pushed)
      × ((count_push services m).snapshots_pushed ≤ m.snapshots_pushed + 1)
count_push_once [] m = (omega arith, omega arith)
count_push_once (svc ∷ services) m = (omega arith, omega arith)

module _ {E : Type 0} (health : Text → Result E (List Entry))
    (sort : (Entry → Entry → Bool) → List Entry → List Entry) (sorts : SortLaws sort)
    (parse_duration : Text → Option ℤ) (range_meta : Dict Text → Dict Text) {S : Type 0}
    (cache : SnapshotCache S) (laws : CacheLaws cache) (reliable : IsReliable cache)
    (marshals : Message → Bool) (all_marshal : (m : Message) → marshals m ≡ true)
    (listener_ports : List ℕ) (range : ServiceMap → ServiceMap) where
  -- The counter has gone up, by at most one for each of the calls; the gauge is that of the last.
  abbrev pub Counts : Calls → Metrics → Metrics → Type 0
  Counts calls m m' =
      (m'.services_discovered ≡ gauge_after calls m.services_discovered)
      × ((m.snapshots_pushed ≤ m'.snapshots_pushed)
          × (m'.snapshots_pushed ≤ m.snapshots_pushed + length calls))

  handle-Counts :
      (names : List Text) (a : Aggregator S)
      → (a' : Aggregator S) × (handle health sort parse_duration range_meta cache marshals
            listener_ports range names a
          ≡ returns a')
        × Counts (names ∷ []) a.world.metrics a'.world.metrics
  unfolding handle update_services
  handle-Counts names a =
      let (services, found, _) = discover-Lists parse_duration range_meta health sort sorts names in
      let m = insert (codes "consul_loader") services a.discovered_service_map in
      let w = (gauged names a).world in
      let all = aggregate (range m) in
      let once = count_push_once (served all) w.metrics in
      (
        record {
          discovered_service_map = m;
          world = pushed cache laws reliable marshals all_marshal listener_ports all w;
        },
        rw (
          found,
          build_and_push_lem cache laws reliable marshals all_marshal listener_ports all w,
        ),
        (count_push_gauge (served all) w.metrics, (once.0, once.1)),
      )

  handle_all-Counts :
      (calls : Calls) (a : Aggregator S)
      → (a' : Aggregator S) × (handle_all health sort parse_duration range_meta cache marshals
            listener_ports range calls a
          ≡ returns a')
        × Counts calls a.world.metrics a'.world.metrics
  unfolding handle_all
  handle_all-Counts [] a = (a, refl, (refl, (omega arith, omega arith)))
  handle_all-Counts (names ∷ calls) a =
      let (a1, first, (g1, (l1, u1))) = handle-Counts names a in
      let (a2, rest, (g2, (l2, u2))) = handle_all-Counts calls a1 in
      (a2, rw first rest, (g2 ∙ gauge_after_last names calls _ g1, (omega arith, omega arith)))

  -- Where messages can be marshalled, the cache takes snapshots, sort.Slice sorts and the answers on
  -- the services' health stay the same during the watch: whatever the strategy and the rounds, the
  -- watch returns. The gauge of discovered services is then the number of
  -- names in the watcher's last call, be they found healthy or not, and what it was if there was no
  -- call. The counter of pushes has not gone down, nor up by more than one for each call.
  pub start_watcher-Counts :
      (strategy : Text) (rounds : List Round) (a : Aggregator S)
      → (a' : Aggregator S) × (start_watcher health sort parse_duration range_meta cache marshals
            listener_ports range strategy rounds a
          ≡ returns a')
        × Counts
            (watch (new_watcher (strategy_or_default strategy)) rounds)
            a.world.metrics
            a'.world.metrics
  unfolding start_watcher
  start_watcher-Counts strategy rounds a =
      handle_all-Counts (watch (new_watcher (strategy_or_default strategy)) rounds) a
