-- ===== src/Discovery/Aggregator/Interleaved/Alone.antt =====
-- A call whose steps nothing comes between does what UpdateServices does in one go.
use flexds.Prelude.{
  ℕ, zero, suc, ◌≡◌, refl, Bool, true, false, not, List, [], ◌∷◌, if◌then◌else◌, Bool-cases, inl,
  inr,
}
use flexds.Results.Panics.{Run, returns, panics, ◌>>=◌, Run-cases}
use flexds.Strings.{Text}
use flexds.Dict.{insert}
use flexds.Common.ServiceModel.{DiscoveredService}
use flexds.Xds.Resources.{Message, connection_manager, Resources, Snapshot}
use flexds.Xds.Clusters.{Built, build, is_nil}
use flexds.Xds.Cache.{SnapshotCache}
use flexds.Xds.SnapshotManager.{
  World, hcm_config, full_resources, empty_resources, snapshot_of, set_nodes, distribute,
  push_empty, push_full, build_and_push,
}
use flexds.Discovery.Aggregator.{ServiceMap, Aggregator, aggregate, update_services}
use flexds.Discovery.Aggregator.Interleaved.{
  Call, Pc, Thread, create, push, count, proceed, resume, advance,
}

-- The goroutine is idle and makes the calls next.
abbrev pub next_calls : List Call → Thread
next_calls calls = record { pc = Pc.idle; calls = calls }

module _ {S : Type 0} (cache : SnapshotCache S) (marshals : Message → Bool)
    (listener_ports : List ℕ) (range : ServiceMap → ServiceMap) where
  abbrev one : Aggregator S × Thread → Aggregator S × Thread
  one = advance cache marshals listener_ports range

  abbrev pub steps : ℕ → Aggregator S × Thread → Aggregator S × Thread
  steps zero x = x
  steps (suc n) x = steps n (one x)

  abbrev pub Reaches : Aggregator S × Thread → Aggregator S × Thread → Type 0
  Reaches x y = (n : ℕ) × (steps n x ≡ y)

  Reaches-next : {x y z : Aggregator S × Thread} → one x ≡ y → Reaches y z → Reaches x z
  Reaches-next e (n, h) = (suc n, rw e h)

  abbrev with_cache : S → Aggregator S → Aggregator S
  with_cache s a = record a { world = record a.world { cache_state = s } }

  setting-Reaches :
      (snap : Snapshot) (counts : Bool) (nodes : List Text) (a : Aggregator S) (calls : List Call)
      → Reaches
          (a, record { pc = Pc.setting snap counts nodes; calls = calls })
          (
            count cache marshals listener_ports range counts
                (with_cache (set_nodes cache snap nodes a.world.cache_state) a),
            next_calls calls,
          )
  unfolding set_nodes advance resume proceed
  setting-Reaches snap counts [] a calls = (1, refl)
  setting-Reaches snap counts (node ∷ nodes) a calls = Reaches-next refl (
      setting-Reaches snap counts nodes
        (with_cache (cache.set_snapshot node snap a.world.cache_state).0 a) calls)

  pub created-Reaches :
      (snap : Snapshot) (counts : Bool) (a : Aggregator S) (calls : List Call)
      → Reaches
          (a, record { pc = Pc.created snap counts; calls = calls })
          (
            count cache marshals listener_ports range counts
                (with_cache (distribute cache snap a.world.cache_state) a),
            next_calls calls,
          )
  unfolding distribute advance resume proceed
  created-Reaches snap counts a calls =
      let (n, h) = setting-Reaches snap counts _ (with_cache _ a) calls in (suc (suc n), h)

  -- Where a goroutine has come when its push has returned, or panicked.
  abbrev pub ended : Aggregator S → List Call → Run (World S) → Aggregator S × Thread
  ended a calls (returns w) = (record a { world = w }, next_calls calls)
  ended a calls panics = (a, record { pc = Pc.panicked; calls = calls })

  abbrev resumed : List Call → Aggregator S × Pc → Aggregator S × Thread
  resumed calls r = (r.0, record { pc = r.1; calls = calls })

  create_empty :
      (a : Aggregator S) (calls : List Call)
      → Reaches
          (resumed calls (create cache marshals listener_ports range empty_resources false a))
          (ended a calls (returns (push_empty cache a.world)))
  unfolding create push_empty
  create_empty a calls =
      elim (Bool-cases
        (cache.accepts (snapshot_of cache a.world empty_resources).version empty_resources)) [
          | inl e ↦ rw e (created-Reaches _ false _ calls)
          | inr e ↦ rw e (0, refl)
        ]

  create_full :
      (resources : Resources) (a : Aggregator S) (calls : List Call)
      → Reaches
          (resumed calls (create cache marshals listener_ports range resources true a))
          (ended a calls (returns (push_full cache a.world resources)))
  unfolding create push_full
  create_full resources a calls =
      elim (Bool-cases (cache.accepts (snapshot_of cache a.world resources).version resources)) [
        | inl e ↦ rw e (created-Reaches _ true _ calls)
        | inr e ↦ rw e (0, refl)
      ]

  push-Reaches :
      (m : Run Built) (a : Aggregator S) (calls : List Call)
      → Reaches (resumed calls (push cache marshals listener_ports range m a)) (
          ended a calls (
            m >>= λ b.
            if is_nil b.clusters
            then returns (push_empty cache a.world)
            else if not (marshals (connection_manager hcm_config))
            then returns a.world
            else returns (push_full cache a.world (full_resources listener_ports b))))
  unfolding push
  push-Reaches panics a calls = (0, refl)
  push-Reaches (returns b) a calls = elim (Bool-cases (is_nil b.clusters)) [
    | inl e ↦ rw e (create_empty a calls)
    | inr e ↦ rw e (elim (Bool-cases (marshals (connection_manager hcm_config))) [
      | inl f ↦ rw f (create_full _ a calls)
      | inr f ↦ rw f (0, refl)
    ])
  ]

  pub collected-Reaches :
      (all : List DiscoveredService) (a : Aggregator S) (calls : List Call)
      → Reaches
          (a, record { pc = Pc.collected all; calls = calls })
          (ended a calls (build_and_push cache marshals listener_ports all a.world))
  unfolding advance resume proceed build_and_push
  collected-Reaches all a calls =
      let (n, h) = push-Reaches (build marshals all) a calls in (suc n, h)

  -- Where a goroutine has come when its call of UpdateServices has returned, or panicked.
  abbrev pub called : Aggregator S → List Call → Run (Aggregator S) → Aggregator S × Thread
  called a calls (returns a') = (a', next_calls calls)
  called a calls panics = (a, record { pc = Pc.panicked; calls = calls })

  -- A call of UpdateServices whose steps nothing comes between ends, in finitely many steps, as
  -- UpdateServices does in one: with the same map, version, cache and metrics, or with a panic.
  pub update_services_alone :
      (loader : Text) (services : List DiscoveredService) (calls : List Call) (a : Aggregator S)
      → let stored = record a {
        discovered_service_map = insert loader services a.discovered_service_map;
      } in
        Reaches
          (a, next_calls ((loader, services) ∷ calls))
          (called stored calls
            (update_services cache marshals listener_ports range loader services a))
  unfolding advance resume proceed update_services
  update_services_alone loader services calls a =
      let m = insert loader services a.discovered_service_map in
      let all = aggregate (range m) in
      let stored : Aggregator S = record a { discovered_service_map = m } in
      let collected : Aggregator S × Thread =
        (stored, record { pc = Pc.collected all; calls = calls }) in
      Reaches-next {y = (stored, record { pc = Pc.stored; calls = calls })} refl (
        Reaches-next {y = collected} refl
          (elim (Run-cases (build_and_push cache marshals listener_ports all a.world)) [
            | inl e ↦ rw e (rw e at (collected-Reaches all stored calls))
            | inr (w, e) ↦ rw e (rw e at (collected-Reaches all stored calls))
          ]))
