-- ===== src/System/Refines/Implements.antt =====
-- The running program against its contract without order (Discovery/Aggregator/Abstract).
use mathlib.Core.List.{Memᴰ, Perm}
use mathlib.Core.Quot.{sound}
use mathlib.Mathlib.Data.Multiset.Defs.{of_list}
use flexds.Prelude.{ℕ, ◌≡◌, ap, ◌∙◌, sym, Bool, true, List, [], ◌∷◌}
use flexds.Results.{ok}
use flexds.Results.Panics.{returns, bind-eq-returns}
use flexds.Strings.{Text}
use flexds.Dict.{insert, IsMap}
use flexds.Dict.Laws.{insert-IsMap}
use flexds.Common.ServiceModel.{DiscoveredService}
use flexds.Xds.Resources.{Message, Snapshot}
use flexds.Xds.Cache.{SnapshotCache, CacheLaws, IsReliable}
use flexds.Xds.SnapshotManager.{build_and_push}
use flexds.Xds.SnapshotManager.Push.{resources_of}
use flexds.Xds.Clusters.Served.{served}
use flexds.Discovery.Aggregator.{ServiceMap, Aggregator, aggregate, update_services}
use flexds.Discovery.Aggregator.Abstract.{
  Reports, replace, offered, insert-replace, offered-aggregate,
}
use flexds.System.{Event, reports, requests, step, run}
use flexds.System.Refines.{reported, reported-InStep, step_reports, run-InStep}

returns_injective : {A : Type 0} {a b : A} → returns a ≡ returns b → a ≡ b
returns_injective h = cc

-- What the loaders have reported after the events.
abbrev pub replay : Reports → List Event → Reports
replay r [] = r
replay r (reports loader services ∷ es) = replay (replace loader services r) es
replay r (requests node ∷ es) = replay r es

module _ {S : Type 0} (cache : SnapshotCache S) (marshals : Message → Bool)
    (listener_ports : List ℕ) (range : ServiceMap → ServiceMap) where
  reports_map :
      (loader : Text) (services : List DiscoveredService) (a a' : Aggregator S)
      → step cache marshals listener_ports range a (reports loader services) ≡ returns a'
      → a'.discovered_service_map ≡ insert loader services a.discovered_service_map
  unfolding step update_services
  reports_map loader services a a' h =
      let m = insert loader services a.discovered_service_map in
      let (w, _, e) =
        bind-eq-returns (build_and_push cache marshals listener_ports (aggregate (range m)) a.world)
          (λ w. returns (record { discovered_service_map = m; world = w })) {b = a'} h in
      ap (λ b. b.discovered_service_map) (returns_injective (sym e))

  requests_map :
      (node : Text) (a a' : Aggregator S)
      → step cache marshals listener_ports range a (requests node) ≡ returns a'
      → a'.discovered_service_map ≡ a.discovered_service_map
  unfolding step
  requests_map node a a' h = ap (λ b. b.discovered_service_map) (returns_injective (sym h))

  -- A run that returns has replayed its events on the reports.
  run-replay :
      (es : List Event) (a a' : Aggregator S)
      → IsMap a.discovered_service_map
      → run cache marshals listener_ports range a es ≡ returns a'
      → of_list a'.discovered_service_map ≡ replay (of_list a.discovered_service_map) es
  unfolding run
  run-replay [] a a' once h = ap (λ b. of_list b.discovered_service_map) (returns_injective (sym h))
  run-replay (reports loader services ∷ es) a a' once h =
      let (b, first, rest) =
        bind-eq-returns (step cache marshals listener_ports range a (reports loader services))
          (λ b. run cache marshals listener_ports range b es) {b = a'} h in
      let written = reports_map loader services a b first in
      let m = a.discovered_service_map in
      run-replay es b a' (rw written (insert-IsMap loader services m once)) rest
      ∙ ap (λ r. replay r es) (ap of_list written ∙ insert-replace loader services m once)
  run-replay (requests node ∷ es) a a' once h =
      let (b, first, rest) =
        bind-eq-returns (step cache marshals listener_ports range a (requests node))
          (λ b. run cache marshals listener_ports range b es) {b = a'} h in
      let same = requests_map node a b first in
      run-replay es b a' (rw same once) rest ∙ ap (λ m. replay (of_list m) es) same

module _ {S : Type 0} (cache : SnapshotCache S) (laws : CacheLaws cache)
    (reliable : IsReliable cache) (marshals : Message → Bool)
    (all_marshal : (m : Message) → marshals m ≡ true) (listener_ports : List ℕ)
    (range : ServiceMap → ServiceMap) (any_order : (m : ServiceMap) → Perm (range m) m)
    (node : Text) where
  -- Where messages can be marshalled, the cache takes snapshots, the map has each loader once and
  -- the cache knows the node: from a report on, any reports of any loaders and requests of any
  -- nodes, in any order, end without a panic. As multisets, the map's entries are then what the
  -- loaders have reported, each report in place of the same loader's last. The node's snapshot is
  -- built from a list of just the services that these reports offer, each as often as it is
  -- offered: its clusters, endpoints and routes are, in the order of that list, those of its
  -- services with an instance and a route, and the listeners are those of the ports (nothing at
  -- all if there is no such service).
  pub run-Implements :
      (loader : Text) (services : List DiscoveredService) (es : List Event) (a : Aggregator S)
      → Memᴰ node (cache.get_status_keys a.world.cache_state)
      → IsMap a.discovered_service_map
      → let all = replay (of_list a.discovered_service_map) (reports loader services ∷ es) in
        (a' : Aggregator S) × (snap : Snapshot) × (run cache marshals listener_ports range a
            (reports loader services ∷ es)
          ≡ returns a')
        × (of_list a'.discovered_service_map ≡ all)
        × (cache.get_snapshot node a'.world.cache_state ≡ ok snap)
        × ((found : List DiscoveredService) × (of_list found ≡ offered all)
            × (snap.resources ≡ resources_of listener_ports (served found)))
  unfolding run
  run-Implements loader services es a known once =
      let (snap, h) =
        reported-InStep cache laws reliable marshals all_marshal listener_ports range any_order node
          loader services a known once in
      let (a', snap', runs, h', found) =
        run-InStep cache laws reliable marshals all_marshal listener_ports range any_order node es
          (reported cache laws reliable marshals all_marshal listener_ports range any_order node
            loader services a)
          snap h in
      let begins =
        step_reports cache laws reliable marshals all_marshal listener_ports range any_order node
          loader services a in
      let whole : run cache marshals listener_ports range a (reports loader services ∷ es)
          ≡ returns a' =
        rw begins runs in
      let found' = h'.built in
      let replayed =
        run-replay cache marshals listener_ports range (reports loader services ∷ es) a a' once
          whole in
      (
        a',
        snap',
        whole,
        replayed,
        h'.holds.1,
        (
          found'.0,
          sound found'.1 ∙ sym (offered-aggregate a'.discovered_service_map) ∙ ap offered replayed,
          found'.2,
        ),
      )
