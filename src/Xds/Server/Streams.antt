-- ===== src/Xds/Server/Streams.antt =====
-- Pushes and requests in any order: a node that the cache knows is never left behind.
use mathlib.Core.List.{Memᴰ}
use flexds.Prelude.{ℕ, ◌≡◌, ◌∙◌, refl, sym, true, Bool, List, [], ◌∷◌, inl, inr}
use flexds.Results.{ok, Result-cases}
use flexds.Results.Panics.{Run, returns, ◌>>=◌}
use flexds.Strings.{Text}
use flexds.Strings.Equality.{Text-cases, ==_iff}
use flexds.Common.ServiceModel.{DiscoveredService}
use flexds.Xds.Resources.{Message, Snapshot}
use flexds.Xds.Clusters.Served.{served}
use flexds.Xds.Cache.{SnapshotCache, CacheLaws, IsReliable}
use flexds.Xds.SnapshotManager.{World, reference_key, snapshot_of, build_and_push}
use flexds.Xds.SnapshotManager.Distribute.{distribute_reaches, keys-distribute}
use flexds.Xds.SnapshotManager.Push.{pushed, resources_of, build_and_push_lem}
use flexds.Xds.Server.{on_stream_request}

-- What the manager and the callbacks do to the shared cache.
pub data Event : Type 0 where
  push : List DiscoveredService → Event
  request : Text → Event

module _ {S : Type 0} (cache : SnapshotCache S) (marshals : Message → Bool)
    (listener_ports : List ℕ) where
  unfoldable pub step : World S → Event → Run (World S)
  step w (push services) = build_and_push cache marshals listener_ports services w
  step w (request node) =
      returns (record w { cache_state = (on_stream_request cache node w.cache_state).0 })

  unfoldable pub run : World S → List Event → Run (World S)
  unfolding step
  run w [] = returns w
  run w (e ∷ es) = step w e >>= λ w'. run w' es

-- The node and the reference hold one snapshot, and the cache knows the node.
abbrev pub Holds : {S : Type 0} → SnapshotCache S → Text → Snapshot → S → Type 0
Holds cache node snap s =
    (cache.get_snapshot reference_key s ≡ ok snap)
    × (cache.get_snapshot node s ≡ ok snap)
    × Memᴰ node (cache.get_status_keys s)

-- The node holds the reference snapshot, or like the reference none.
abbrev pub IsCurrent : {S : Type 0} → SnapshotCache S → Text → S → Type 0
IsCurrent cache node s = cache.get_snapshot node s ≡ cache.get_snapshot reference_key s

module _ {S : Type 0} (cache : SnapshotCache S) (laws : CacheLaws cache)
    (reliable : IsReliable cache) (marshals : Message → Bool)
    (all_marshal : (m : Message) → marshals m ≡ true) (listener_ports : List ℕ) where
  open cache use {get_snapshot, get_status_keys}

  set_keeps_reference :
      (other node : Text) (s : S) (snap : Snapshot)
      → get_snapshot reference_key s ≡ ok snap
      → get_snapshot node s ≡ ok snap
      → get_snapshot node (on_stream_request cache other s).0 ≡ ok snap
  unfolding on_stream_request
  set_keeps_reference other node s snap h k = rw h (elim (Text-cases other node) [
    | inl e ↦ rw (← e) (laws.get-set_self other snap s (reliable.sets other snap s))
    | inr e ↦ laws.get-set_other other node snap s (λ p. cc ((==_iff other node).1 p, e)) ∙ k
  ])

  keys-on_stream_request :
      (other : Text) (s : S)
      → get_status_keys (on_stream_request cache other s).0 ≡ get_status_keys s
  unfolding on_stream_request
  keys-on_stream_request other s = elim (Result-cases (get_snapshot reference_key s)) [
    | inl (snap, e) ↦ rw e (laws.keys-set other snap s)
    | inr (error, e) ↦ rw e
  ]

  module _ (node : Text) where
    pub pushed-Holds :
        (services : List DiscoveredService) (w : World S)
        → Memᴰ node (get_status_keys w.cache_state)
        → Holds cache node
            (snapshot_of cache w (resources_of listener_ports (served services)))
            (pushed cache laws reliable marshals all_marshal listener_ports services w).cache_state
    pushed-Holds services w known =
        let new = snapshot_of cache w (resources_of listener_ports (served services)) in
        (
          distribute_reaches cache laws reliable new reference_key w.cache_state (inl refl),
          distribute_reaches cache laws reliable new node w.cache_state
              (inr (rw (laws.keys-set reference_key new w.cache_state) known)),
          rw (keys-distribute cache laws new w.cache_state) known,
        )

    pub request-Holds :
        (other : Text) (s : S) (snap : Snapshot)
        → Holds cache node snap s
        → Holds cache node snap (on_stream_request cache other s).0
    request-Holds other s snap (h, k, known) = (
      set_keeps_reference other reference_key s snap h h,
      set_keeps_reference other node s snap h k,
      rw (keys-on_stream_request other s) known,
    )

    step-Holds :
        (w : World S) (e : Event) (snap : Snapshot)
        → Holds cache node snap w.cache_state
        → (w' : World S) × (snap' : Snapshot) × (step cache marshals listener_ports w e
            ≡ returns w')
          × Holds cache node snap' w'.cache_state
    unfolding step
    step-Holds w (push services) snap (h, k, known) = (
      pushed cache laws reliable marshals all_marshal listener_ports services w,
      snapshot_of cache w (resources_of listener_ports (served services)),
      build_and_push_lem cache laws reliable marshals all_marshal listener_ports services w,
      pushed-Holds services w known,
    )
    step-Holds w (request other) snap (h, k, known) = (
      record w { cache_state = (on_stream_request cache other w.cache_state).0 },
      snap,
      refl,
      request-Holds other w.cache_state snap (h, k, known),
    )

    run-Holds :
        (es : List Event) (w : World S) (snap : Snapshot)
        → Holds cache node snap w.cache_state
        → (w' : World S) × (run cache marshals listener_ports w es ≡ returns w')
          × IsCurrent cache node w'.cache_state
    unfolding run
    run-Holds [] w snap (h, k, known) = (w, refl, k ∙ sym h)
    run-Holds (e ∷ es) w snap held =
        let (w', snap', first, held') = step-Holds w e snap held in
        let (w'', rest, current) = run-Holds es w' snap' held' in (w'', rw first rest, current)

    -- Where messages can be marshalled and the cache takes snapshots: after a push, any pushes and
    -- requests of any nodes, in any order, leave a node that the cache knew before with the
    -- reference snapshot, and none of them panics.
    pub run-IsCurrent :
        (services : List DiscoveredService) (es : List Event) (w : World S)
        → Memᴰ node (get_status_keys w.cache_state)
        → (w' : World S) × (run cache marshals listener_ports w (push services ∷ es) ≡ returns w')
          × IsCurrent cache node w'.cache_state
    unfolding run step
    run-IsCurrent services es w known =
        let (w', rest, current) =
          run-Holds es (pushed cache laws reliable marshals all_marshal listener_ports services w) _
            (pushed-Holds services w known) in
        (
          w',
          rw (build_and_push_lem cache laws reliable marshals all_marshal listener_ports services w)
              rest,
          current,
        )
