-- ===== src/System/Refines/Arrives.antt =====
-- From the answers of Consul, with the times that they take, to the snapshot of a connected node.
use mathlib.Core.Path.{subst}
use mathlib.Core.List.{Memᴰ, Perm}
use flexds.Prelude.{
  ℕ, ℤ, ◌≤◌, ◌<◌, ◌≡◌, map, refl, ◌∙◌, fun_ext, Bool, true, Option, none, some, List, [], ◌∷◌, ◌++◌,
  All, if◌then◌else◌, arith,
}
use flexds.Results.{Result}
use flexds.Results.Panics.{Run, returns}
use flexds.Strings.{Text, codes, ◌==◌}
use flexds.Dict.{Dict, lookup, IsMap}
use flexds.Dict.Laws.{lookup-insert}
use flexds.Common.ServiceModel.{DiscoveredService}
use flexds.Xds.Resources.{Message, Snapshot}
use flexds.Xds.Cache.{SnapshotCache, CacheLaws, IsReliable}
use flexds.Discovery.Aggregator.{ServiceMap, Aggregator}
use flexds.Discovery.Consul.Watcher.{Answer, Calls, watch, immediate_watcher}
use flexds.Discovery.Consul.Watcher.Loop.{last_or}
use flexds.Discovery.Consul.Loader.{Entry, discover, handle, handle_all, gauged}
use flexds.Discovery.Consul.Loader.Entries.{SortLaws}
use flexds.Discovery.Consul.Loader.Discovered.{discover-Lists}
use flexds.Discovery.Consul.Timed.{Turn, query}
use flexds.Discovery.Consul.Timed.Turns.{GoesOn, IsQuiet, duration}
use flexds.Discovery.Consul.Timed.Debounced.{timed_debounce}
use flexds.Discovery.Consul.Timed.Batched.{timed_batch}
use flexds.Discovery.Consul.Timed.Settles.{timed_debounce_settles}
use flexds.Discovery.Consul.Timed.Empties.{timed_batch_settles}
use flexds.Discovery.Consul.Timed.Rounds.{round_of}
use flexds.Discovery.Consul.Timed.Latest.{last_change, last-changes_of}
use flexds.System.{step}
use flexds.System.Program.{found_of}
use flexds.System.Refines.{InStep, reported, reported-InStep, step_reports, Sees, InStep-Sees}

module _ {S : Type 0} (cache : SnapshotCache S) (laws : CacheLaws cache)
    (reliable : IsReliable cache) (marshals : Message → Bool)
    (all_marshal : (m : Message) → marshals m ≡ true) (listener_ports : List ℕ)
    (range : ServiceMap → ServiceMap) (any_order : (m : ServiceMap) → Perm (range m) m)
    (node : Text) {E : Type 0} (health : Text → Result E (List Entry))
    (sort : (Entry → Entry → Bool) → List Entry → List Entry) (sorts : SortLaws sort)
    (parse_duration : Text → Option ℤ) (range_meta : Dict Text → Dict Text) where
  -- What the handler finds for the names.
  abbrev pub discovered : List Text → List DiscoveredService
  discovered names = found_of (discover health sort parse_duration range_meta names)

  abbrev Step : Aggregator S → Snapshot → Type 0
  Step = InStep cache laws reliable marshals all_marshal listener_ports range any_order node

  abbrev handler : List Text → Aggregator S → Run (Aggregator S)
  handler = handle health sort parse_duration range_meta cache marshals listener_ports range

  abbrev pub handles_all : Calls → Aggregator S → Run (Aggregator S)
  handles_all = handle_all health sort parse_duration range_meta cache marshals listener_ports range

  -- The Consul loader's report is replaced, and no other.
  abbrev pub replaced : List Text → ServiceMap → Text → Option (List DiscoveredService)
  replaced names m l = if codes "consul_loader" == l then some (discovered names) else lookup l m

  abbrev Handled : List Text → ServiceMap → Run (Aggregator S) → Type 0
  Handled names m r =
      (a' : Aggregator S) × (snap : Snapshot) × (r ≡ returns a')
      × Step a' snap
      × ((l : Text) → lookup l a'.discovered_service_map ≡ replaced names m l)

  handle-Handled :
      (names : List Text) (a : Aggregator S)
      → Memᴰ node (cache.get_status_keys a.world.cache_state)
      → IsMap a.discovered_service_map
      → Handled names a.discovered_service_map (handler names a)
  unfolding handle step
  handle-Handled names a known once =
      let (services, found, lists) =
        discover-Lists parse_duration range_meta health sort sorts names in
      let (snap, h) =
        reported-InStep cache laws reliable marshals all_marshal listener_ports range any_order node
          (codes "consul_loader") services (gauged names a) known once in
      (
        reported cache laws reliable marshals all_marshal listener_ports range any_order node
            (codes "consul_loader") services (gauged names a),
        snap,
        rw found (
            step_reports cache laws reliable marshals all_marshal listener_ports range any_order
              node (codes "consul_loader") services (gauged names a)),
        h,
        λ l. rw found (lookup-insert (codes "consul_loader") l services a.discovered_service_map),
      )

  handle_all-Handled :
      (names : List Text) (calls : Calls) (a : Aggregator S)
      → Memᴰ node (cache.get_status_keys a.world.cache_state)
      → IsMap a.discovered_service_map
      → Handled (last_or names calls) a.discovered_service_map (handles_all (names ∷ calls) a)
  unfolding handle_all
  handle_all-Handled names [] a known once =
      let (a1, snap, runs, h, found) = handle-Handled names a known once in
      (a1, snap, rw runs refl, h, found)
  handle_all-Handled names (next ∷ calls) a known once =
      let (a1, snap, first, h, found) = handle-Handled names a known once in
      let (a2, snap2, rest, h2, found2) = handle_all-Handled next calls a1 h.holds.2 h.once in
      (
        a2,
        snap2,
        rw first rest,
        h2,
        λ l. found2 l ∙ over (last_or next calls) l a1.discovered_service_map (found l),
      )
    where
      over :
          (last : List Text) (l : Text) (m : ServiceMap)
          → lookup l m ≡ replaced names a.discovered_service_map l
          → replaced last m l ≡ replaced last a.discovered_service_map l
      over last l m h = ground arith

  calls-Handled :
      (calls : Calls) (names : List Text) (a : Aggregator S)
      → ((d : List Text) → last_or d calls ≡ names)
      → Memᴰ node (cache.get_status_keys a.world.cache_state)
      → IsMap a.discovered_service_map
      → Handled names a.discovered_service_map (handles_all calls a)
  calls-Handled [] names a h known once = absurd (cc (h [], h ([] ∷ [])))
  calls-Handled (first ∷ calls) names a h known once =
      rw (← h []) (handle_all-Handled first calls a known once)

  Handled-Sees :
      (names : List Text) (m : ServiceMap) (r : Run (Aggregator S))
      → Handled names m r
      → (a' : Aggregator S) × (r ≡ returns a')
        × Sees cache laws reliable marshals all_marshal listener_ports range any_order node
            (replaced names m)
            a'
  Handled-Sees names m r (a', snap, runs, h, found) = (
    a',
    runs,
    subst
        (λ offered.
          Sees cache laws reliable marshals all_marshal listener_ports range any_order node offered
            a')
        (fun_ext found)
        (InStep-Sees cache laws reliable marshals all_marshal listener_ports range any_order node a'
          snap h),
  )

  -- The handler's calls return, and the node sees the services that are discovered for the names,
  -- with what the other loaders had reported.
  abbrev pub ArrivesAt : List Text → Calls → Aggregator S → Type 0
  ArrivesAt names calls a =
      (a' : Aggregator S) × (handles_all calls a ≡ returns a')
      × Sees cache laws reliable marshals all_marshal listener_ports range any_order node
          (replaced names a.discovered_service_map) a'

  -- Calls whose last is the last change arrive.
  calls-ArrivesAt :
      (all : List Turn) (calls : Calls) (names : List Text) (a : Aggregator S)
      → ((d : List Text) → last_or d calls ≡ last_or d (watch immediate_watcher (map round_of all)))
      → last_change 0 none all ≡ some names
      → Memᴰ node (cache.get_status_keys a.world.cache_state)
      → IsMap a.discovered_service_map
      → ArrivesAt names calls a
  unfolding watch
  calls-ArrivesAt all calls names a settles last known once =
      Handled-Sees names a.discovered_service_map (handles_all calls a)
        (calls-Handled calls names a (λ d. settles d ∙ last-changes_of all names d last) known once)

  -- Where messages can be marshalled, the cache takes snapshots, sort.Slice sorts, the answers on
  -- the services' health stay the same, the map has each loader once and the cache knows the node:
  -- the debouncing watcher goes on through any turns, whatever Consul answers and however long it
  -- takes. Then for at least the interval, and one turn more, queries fail or answer with the index
  -- that was seen last. If some answer has had a new index, then the handler's calls return, and the
  -- node has a snapshot, in which a cluster is exactly if it is that of a service, with an instance
  -- and a route, that the handler discovers for the names of the last such answer, or that another
  -- loader had reported last.
  pub timed_debounce_arrives :
      (interval : ℕ) (turns quiet : List Turn) (took : ℕ) (answer : Answer) (names : List Text)
      (a : Aggregator S)
      → let all = turns ++ (quiet ++ query took answer ∷ []) in
        All GoesOn turns
        → All (IsQuiet (timed_debounce interval turns).0.last_index) quiet
        → IsQuiet (timed_debounce interval turns).0.last_index (query took answer)
        → interval ≤ duration quiet
        → last_change 0 none all ≡ some names
        → Memᴰ node (cache.get_status_keys a.world.cache_state)
        → IsMap a.discovered_service_map
        → ArrivesAt names (timed_debounce interval all).1 a
  timed_debounce_arrives interval turns quiet took answer names a g qs q long last known once =
      let all = turns ++ (quiet ++ query took answer ∷ []) in
      calls-ArrivesAt all (timed_debounce interval all).1 names a
        (λ d. timed_debounce_settles interval turns quiet took answer d g qs q long) last known once

  -- Where messages can be marshalled, the cache takes snapshots, sort.Slice sorts, the answers on
  -- the services' health stay the same, a batch has at least one change, the map has each loader
  -- once and the cache knows the node: the batching watcher goes on through any turns, whatever
  -- Consul answers and however long it takes. Then for at least the timeout, and one turn more,
  -- queries fail or answer with the index that was seen last. If some answer has had a new index,
  -- then the handler's calls return, and the node has a snapshot, in which a cluster is exactly if
  -- it is that of a service, with an instance and a route, that the handler discovers for the names
  -- of the last such answer, or that another loader had reported last.
  pub timed_batch_arrives :
      (size timeout : ℕ) (turns quiet : List Turn) (took : ℕ) (answer : Answer) (names : List Text)
      (a : Aggregator S)
      → let all = turns ++ (quiet ++ query took answer ∷ []) in
        0 < size
        → All GoesOn turns
        → All (IsQuiet (timed_batch size timeout turns).0.last_index) quiet
        → IsQuiet (timed_batch size timeout turns).0.last_index (query took answer)
        → timeout ≤ duration quiet
        → last_change 0 none all ≡ some names
        → Memᴰ node (cache.get_status_keys a.world.cache_state)
        → IsMap a.discovered_service_map
        → ArrivesAt names (timed_batch size timeout all).1 a
  timed_batch_arrives size timeout turns quiet took answer names a positive g qs q long last known
        once =
      let all = turns ++ (quiet ++ query took answer ∷ []) in
      calls-ArrivesAt all (timed_batch size timeout all).1 names a
        (λ d. timed_batch_settles size timeout turns quiet took answer d positive g qs q long) last
        known once
