-- ===== src/System/Refines/EndToEnd.antt =====
-- The loaders' own events, in any order, against what a connected node is offered.
use mathlib.Core.Path.{subst}
use mathlib.Core.List.{Memᴰ, Perm}
use flexds.Prelude.{
  ℕ, ℤ, ◌≡◌, refl, ◌∙◌, fun_ext, Bool, true, Option, List, [], ◌∷◌, ◌++◌, append_assoc, append-nil,
  map, All,
}
use flexds.Results.{ok, err}
use flexds.Results.Panics.{Run, returns}
use flexds.Strings.{Text, codes}
use flexds.Dict.{Dict, lookup, IsMap}
use flexds.Common.ServiceModel.{DiscoveredService}
use flexds.Xds.Resources.{Message, Snapshot}
use flexds.Xds.Cache.{SnapshotCache, CacheLaws, IsReliable}
use flexds.Xds.Server.{on_stream_request}
use flexds.Xds.Server.Streams.{request-Holds}
use flexds.Discovery.Aggregator.{ServiceMap, Aggregator, update_services}
use flexds.Discovery.Consul.Loader.{Entry, handle, gauged}
use flexds.Discovery.Consul.Loader.Entries.{SortLaws}
use flexds.Discovery.Consul.Loader.Discovered.{discover-Lists}
use flexds.Discovery.Yaml.{to_service, load_services}
use flexds.Discovery.Marathon.Conversion.{all_converted, convert_lem}
use flexds.Discovery.Marathon.Load.{load_apps}
use flexds.Discovery.Marathon.Load.Polling.{AreSound}
use flexds.System.{Event, reports, step, last_report}
use flexds.System.Program.{
  Happening, consul_changed, file_loaded, apps_polled, node_requests, event_of, events_of, happen,
  run_program,
}
use flexds.System.Refines.{
  InStep, reported, reported_by, reported-InStep, step_reports, reported_last, Sees, InStep-Sees,
}

-- Marathon's apps can be converted: a healthy task has all its ports.
abbrev pub CanConvert : {E : Type 0} → Happening E → Type 0
CanConvert (apps_polled fetched) = AreSound fetched
CanConvert h = Unit

-- Something is reported.
abbrev pub Reports : {E : Type 0} → Happening E → Type 0
Reports (file_loaded (err e)) = ⊥
Reports (apps_polled (err e)) = ⊥
Reports (node_requests node) = ⊥
Reports h = Unit

module _ {S : Type 0} (cache : SnapshotCache S) (laws : CacheLaws cache)
    (reliable : IsReliable cache) (marshals : Message → Bool)
    (all_marshal : (m : Message) → marshals m ≡ true) (listener_ports : List ℕ)
    (range : ServiceMap → ServiceMap) (any_order : (m : ServiceMap) → Perm (range m) m)
    (node : Text) where
  abbrev Step : Aggregator S → Snapshot → Type 0
  Step = InStep cache laws reliable marshals all_marshal listener_ports range any_order node

  abbrev after : Text → List DiscoveredService → Aggregator S → Aggregator S
  after = reported cache laws reliable marshals all_marshal listener_ports range any_order node

  updates :
      (loader : Text) (services : List DiscoveredService) (a : Aggregator S)
      → update_services cache marshals listener_ports range loader services a
        ≡ returns (after loader services a)
  unfolding step
  updates =
      step_reports cache laws reliable marshals all_marshal listener_ports range any_order node

  -- The run returns, with the node in step, and the map has what the events report.
  abbrev Follows : Aggregator S → List Event → Run (Aggregator S) → Type 0
  Follows a events r =
      (a' : Aggregator S) × (snap : Snapshot) × (r ≡ returns a')
      × Step a' snap
      × ((l : Text) (es : List Event)
          → last_report l (lookup l a'.discovered_service_map) es
            ≡ last_report l (lookup l a.discovered_service_map) (events ++ es))

  -- An update from a state with the same map and the same cache.
  update-Follows :
      (loader : Text) (services : List DiscoveredService) (a b : Aggregator S)
      → Memᴰ node (cache.get_status_keys b.world.cache_state)
      → IsMap b.discovered_service_map
      → b.discovered_service_map ≡ a.discovered_service_map
      → Follows a
          (reports loader services ∷ [])
          (update_services cache marshals listener_ports range loader services b)
  update-Follows loader services a b known once same =
      let (snap, step) =
        reported-InStep cache laws reliable marshals all_marshal listener_ports range any_order node
          loader services b known once in
      (
        after loader services b,
        snap,
        updates loader services b,
        step,
        λ l es. rw (← same) (
            reported_last cache laws reliable marshals all_marshal listener_ports range any_order
              node loader l services b.discovered_service_map es),
      )

  Follows-Sees :
      (a : Aggregator S) (es : List Event) (r : Run (Aggregator S))
      → Follows a es r
      → (a' : Aggregator S) × (r ≡ returns a')
        × Sees cache laws reliable marshals all_marshal listener_ports range any_order node
            (reported_by a.discovered_service_map es)
            a'
  unfolding last_report
  Follows-Sees a es r (a', snap, runs, i, found) = (
    a',
    runs,
    subst
        (λ offered.
          Sees cache laws reliable marshals all_marshal listener_ports range any_order node offered
            a')
        (fun_ext (λ l. found l [] ∙ rw (append-nil es) refl))
        (InStep-Sees cache laws reliable marshals all_marshal listener_ports range any_order node a'
          snap i),
  )

  module _ {E : Type 0} (sort : (Entry → Entry → Bool) → List Entry → List Entry)
      (sorts : SortLaws sort) (parse_duration : Text → Option ℤ)
      (range_meta : Dict Text → Dict Text) where
    abbrev events : List (Happening E) → List Event
    events = events_of sort parse_duration range_meta

    abbrev event : Happening E → List Event
    event = event_of sort parse_duration range_meta

    abbrev happens : Aggregator S → Happening E → Run (Aggregator S)
    happens = happen sort parse_duration range_meta cache marshals listener_ports range

    report-Follows :
        (a : Aggregator S) (h : Happening E)
        → Memᴰ node (cache.get_status_keys a.world.cache_state)
        → IsMap a.discovered_service_map
        → Reports h
        → CanConvert h
        → Follows a (event h) (happens a h)
    unfolding happen handle load_services load_apps
    report-Follows a (consul_changed names health) known once r c =
        let (services, found, lists) =
          discover-Lists parse_duration range_meta health sort sorts names in
        rw found
          (update-Follows (codes "consul_loader") services a (gauged names a) known once refl)
    report-Follows a (file_loaded (err e)) known once r c = absurd r
    report-Follows a (file_loaded (ok services)) known once r c =
        let (a', snap, runs, step, found) =
          update-Follows (codes "yaml_loader") (map to_service services) a a known once refl in
        (a', snap, rw runs refl, step, found)
    report-Follows a (apps_polled (err e)) known once r c = absurd r
    report-Follows a (apps_polled (ok apps)) known once r c =
        let (a', snap, runs, step, found) =
          update-Follows (codes "marathon_loader") (all_converted apps) a a known once refl in
        (a', snap, rw (convert_lem apps, c, runs) refl, step, found)
    report-Follows a (node_requests other) known once r c = absurd r

    -- Anything that happens keeps a node in step.
    happen-Follows :
        (a : Aggregator S) (snap : Snapshot) (h : Happening E)
        → Step a snap
        → CanConvert h
        → Follows a (event h) (happens a h)
    unfolding happen load_services load_apps last_report
    happen-Follows a snap (consul_changed names health) i c =
        report-Follows a (consul_changed names health) i.holds.2 i.once tt c
    happen-Follows a snap (file_loaded (err e)) i c = (a, snap, refl, i, λ l es. refl)
    happen-Follows a snap (file_loaded (ok services)) i c =
        report-Follows a (file_loaded (ok services)) i.holds.2 i.once tt c
    happen-Follows a snap (apps_polled (err e)) i c = (a, snap, refl, i, λ l es. refl)
    happen-Follows a snap (apps_polled (ok apps)) i c =
        report-Follows a (apps_polled (ok apps)) i.holds.2 i.once tt c
    happen-Follows a snap (node_requests other) i c =
        let w = a.world in
        (
          record a {
            world = record w { cache_state = (on_stream_request cache other w.cache_state).0 };
          },
          snap,
          refl,
          record {
            holds =
                request-Holds cache laws reliable marshals all_marshal listener_ports node other
                  w.cache_state snap i.holds;
            built = i.built;
            once = i.once;
          },
          λ l es. refl,
        )

    run_program-Follows :
        (a : Aggregator S) (snap : Snapshot) (hs : List (Happening E))
        → Step a snap
        → All CanConvert hs
        → Follows a
            (events hs)
            (run_program sort parse_duration range_meta cache marshals listener_ports range a hs)
    unfolding run_program
    run_program-Follows a snap [] i c = (a, snap, refl, i, λ l es. refl)
    run_program-Follows a snap (h ∷ hs) i (c, cs) =
        let (a1, snap1, first, i1, found1) = happen-Follows a snap h i c in
        let (a2, snap2, rest, i2, found2) = run_program-Follows a1 snap1 hs i1 cs in
        (
          a2,
          snap2,
          rw first rest,
          i2,
          λ l es.
              found2 l es ∙ rw (append_assoc (event h) (events hs) es) (found1 l (events hs ++ es)),
        )

    -- Where messages can be marshalled, the cache takes snapshots, sort.Slice sorts, the map has each
    -- loader once and the cache knows the node: let something be reported, and then let Consul's
    -- watcher call its handler, YAML files be loaded, Marathon be polled and nodes send requests, as
    -- often and in any order, with whatever errors of queries, files and polls. If Marathon's
    -- healthy tasks have all their ports, nothing panics, and in the end the node has a snapshot, in
    -- which a cluster is exactly if it is that of a service, with an instance and a route, in what
    -- some loader has last discovered or loaded without an error.
    pub run_program-Sees :
        (first : Happening E) (hs : List (Happening E)) (a : Aggregator S)
        → Memᴰ node (cache.get_status_keys a.world.cache_state)
        → IsMap a.discovered_service_map
        → Reports first
        → All CanConvert (first ∷ hs)
        → (a' : Aggregator S) × (run_program sort parse_duration range_meta cache marshals
              listener_ports range a
              (first ∷ hs)
            ≡ returns a')
          × Sees cache laws reliable marshals all_marshal listener_ports range any_order node
              (reported_by a.discovered_service_map (events (first ∷ hs)))
              a'
    unfolding run_program
    run_program-Sees first hs a known once reported (c, cs) =
        let (a1, snap1, begins, i1, found1) = report-Follows a first known once reported c in
        let (a2, snap2, rest, i2, found2) = run_program-Follows a1 snap1 hs i1 cs in
        Follows-Sees a (events (first ∷ hs)) _ (
          a2,
          snap2,
          rw begins rest,
          i2,
          λ l es.
              found2 l es
              ∙ rw (append_assoc (event first) (events hs) es) (found1 l (events hs ++ es)),
        )
