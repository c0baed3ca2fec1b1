-- ===== src/System/Interleaved/Phases.antt =====
-- One loader beside any streams: what holds at each point of its calls.
use mathlib.Core.List.{Perm}
use mathlib.Core.List.Perm
use flexds.Prelude.{
  ℕ, ◌+◌, ◌-◌, ◌≡◌, ◌≢◌, ◌⊎◌, inl, inr, refl, ◌∙◌, ap, Bool, true, false, List, [], ◌∷◌, map,
  length, arith,
}
use flexds.Results.{ok}
use flexds.Results.Panics.{returns}
use flexds.Strings.{Text, itoa}
use flexds.Strings.Equality.{Text-cases, ==_iff}
use flexds.Dict.{insert}
use flexds.Common.ServiceModel.{DiscoveredService}
use flexds.Xds.Resources.{Message, connection_manager, Resources, Snapshot}
use flexds.Xds.Clusters.{build}
use flexds.Xds.Clusters.Served.{served, cluster_of, built_of, build_lem}
use flexds.Xds.Cache.{SnapshotCache, CacheLaws, IsReliable}
use flexds.Xds.SnapshotManager.{
  hcm_config, reference_key, full_resources, empty_resources, snapshot_of, next_version,
}
use flexds.Xds.SnapshotManager.Push.{resources_of}
use flexds.Discovery.Aggregator.{ServiceMap, Aggregator, aggregate}
use flexds.Discovery.Aggregator.Order.{aggregate-perm}
use flexds.Discovery.Aggregator.Pushed.{IsPublished, served-perm, clusters-resources_of}
use flexds.Discovery.Aggregator.Interleaved.{
  Call, Pc, Thread, create, push, proceed, resume, advance,
}

-- The snapshot has the clusters of the map.
abbrev pub Fits : Snapshot → ServiceMap → Type 0
Fits snap m = Perm snap.resources.clusters (map cluster_of (served (aggregate m)))

-- How many steps calls take, where the cache knows `k` nodes.
abbrev pub cost : ℕ → List Call → ℕ
cost k [] = 0
cost k (c ∷ calls) = 6 + k + cost k calls

abbrev pub pc_cost : ℕ → Pc → ℕ
pc_cost k Pc.idle = 0
pc_cost k Pc.stored = 5 + k
pc_cost k (Pc.collected all) = 4 + k
pc_cost k (Pc.created snap counts) = 3 + k
pc_cost k (Pc.set_reference snap counts) = 2 + k
pc_cost k (Pc.setting snap counts nodes) = 1 + length nodes
pc_cost k Pc.panicked = 0

-- The map after all calls.
abbrev pub stored_all : List Call → ServiceMap → ServiceMap
stored_all [] m = m
stored_all ((loader, services) ∷ calls) m = stored_all calls (insert loader services m)

module _ {S : Type 0} (cache : SnapshotCache S) where
  abbrev pub Phase : Pc → List Call → Aggregator S → Type 0
  Phase Pc.idle calls a = (calls ≢ []) ⊎ IsPublished cache a
  Phase Pc.stored calls a = Unit
  Phase (Pc.collected all) calls a = Perm all (aggregate a.discovered_service_map)
  Phase (Pc.created snap counts) calls a = Fits snap a.discovered_service_map
  Phase (Pc.set_reference snap counts) calls a =
      Fits snap a.discovered_service_map
      × (cache.get_snapshot reference_key a.world.cache_state ≡ ok snap)
  Phase (Pc.setting snap counts nodes) calls a =
      Fits snap a.discovered_service_map
      × (cache.get_snapshot reference_key a.world.cache_state ≡ ok snap)
  Phase Pc.panicked calls a = ⊥

  -- It depends on the map and the reference snapshot only.
  pub Phase-same :
      (pc : Pc) (calls : List Call) (a a' : Aggregator S)
      → a'.discovered_service_map ≡ a.discovered_service_map
      → cache.get_snapshot reference_key a'.world.cache_state
        ≡ cache.get_snapshot reference_key a.world.cache_state
      → Phase pc calls a
      → Phase pc calls a'
  Phase-same Pc.idle calls a a' m r (inl h) = inl h
  Phase-same Pc.idle calls a a' m r (inr (snap, found, fits)) = inr (snap, r ∙ found, rw m fits)
  Phase-same Pc.stored calls a a' m r h = tt
  Phase-same (Pc.collected all) calls a a' m r h = rw m h
  Phase-same (Pc.created snap counts) calls a a' m r h = rw m h
  Phase-same (Pc.set_reference snap counts) calls a a' m r (h, found) = (rw m h, r ∙ found)
  Phase-same (Pc.setting snap counts nodes) calls a a' m r (h, found) = (rw m h, r ∙ found)
  Phase-same Pc.panicked calls a a' m r h = absurd h

  -- A loader at a point of its calls, from which it comes to the map `goal` in `left` steps.
  pub record IsAt (k : ℕ) (goal : ServiceMap) (left : ℕ) (a : Aggregator S) (t : Thread)
      : Type 0 where
    pub phase : Phase t.pc t.calls a
    pub leads : stored_all t.calls a.discovered_service_map ≡ goal
    pub steps : pc_cost k t.pc + cost k t.calls ≡ left
    pub known : length (cache.get_status_keys a.world.cache_state) ≡ k

module _ {S : Type 0} (cache : SnapshotCache S) (laws : CacheLaws cache)
    (reliable : IsReliable cache) (marshals : Message → Bool)
    (all_marshal : (m : Message) → marshals m ≡ true) (listener_ports : List ℕ)
    (range : ServiceMap → ServiceMap) (any_order : (m : ServiceMap) → Perm (range m) m) where
  abbrev bumped : Aggregator S → Aggregator S
  bumped a = record a { world = record a.world { version = next_version a.world.version } }

  creates :
      (resources : Resources) (counts : Bool) (a : Aggregator S)
      → create cache marshals listener_ports range resources counts a
        ≡ (bumped a, Pc.created (snapshot_of cache a.world resources) counts)
  unfolding create
  creates resources counts a =
      rw (reliable.creates (itoa (next_version a.world.version)) resources) refl

  push_creates :
      (l : List DiscoveredService) (a : Aggregator S)
      → (counts : Bool) × (push cache marshals listener_ports range (returns (built_of l)) a ≡ (
        bumped a,
        Pc.created (snapshot_of cache a.world (resources_of listener_ports l)) counts,
      ))
  unfolding push
  push_creates [] a = (false, creates empty_resources false a)
  push_creates (svc ∷ l) a = (
    true,
    rw (all_marshal (connection_manager hcm_config))
        (creates (full_resources listener_ports (built_of (svc ∷ l))) true a),
  )

  module _ (k : ℕ) (goal : ServiceMap) where
    abbrev ComesTo : ℕ → Aggregator S × Thread → Type 0
    ComesTo left r = IsAt cache k goal left r.0 r.1

    collected_comes :
        (all : List DiscoveredService) (calls : List Call) (a : Aggregator S) (left : ℕ)
        → IsAt cache k goal left a (record { pc = Pc.collected all; calls = calls })
        → let r = push cache marshals listener_ports range (build marshals all) a in
          ComesTo (left - 1) (r.0, record { pc = r.1; calls = calls })
    collected_comes all calls a left h =
        let (counts, e) = push_creates (served all) a in
        let steps = h.steps in
        rw (build_lem marshals all_marshal all, e)
          (record {
            phase =
                rw (clusters-resources_of listener_ports (served all))
                  (Perm.map cluster_of (served-perm h.phase));
            leads = h.leads;
            steps = omega arith;
            known = h.known;
          })

    reference_kept :
        (node : Text) (snap : Snapshot) (s : S)
        → cache.get_snapshot reference_key s ≡ ok snap
        → cache.get_snapshot reference_key (cache.set_snapshot node snap s).0 ≡ ok snap
    reference_kept node snap s found = elim (Text-cases node reference_key) [
      | inl e ↦ rw (← e) (laws.get-set_self node snap s (reliable.sets node snap s))
      | inr e ↦
          laws.get-set_other node reference_key snap s
            (λ p. cc ((==_iff node reference_key).1 p, e))
          ∙ found
    ]

    resume_comes :
        (pc : Pc) (calls : List Call) (a : Aggregator S) (left : ℕ)
        → IsAt cache k goal left a (record { pc = pc; calls = calls })
        → ComesTo (left - 1) (resume cache marshals listener_ports range pc calls a)
    unfolding resume proceed
    resume_comes Pc.idle [] a left h =
        let steps = h.steps in
        record { phase = h.phase; leads = h.leads; steps = omega arith; known = h.known }
    resume_comes Pc.idle (c ∷ calls) a left h =
        let steps = h.steps in
        record { phase = tt; leads = h.leads; steps = omega arith; known = h.known }
    resume_comes Pc.stored calls a left h =
        let steps = h.steps in
        record {
          phase = aggregate-perm (any_order a.discovered_service_map);
          leads = h.leads;
          steps = omega arith;
          known = h.known;
        }
    resume_comes (Pc.collected all) calls a left h = collected_comes all calls a left h
    resume_comes (Pc.created snap counts) calls a left h =
        let steps = h.steps in
        record {
          phase = (
            h.phase,
            laws.get-set_self reference_key snap _ (reliable.sets reference_key snap _),
          );
          leads = h.leads;
          steps = omega arith;
          known = ap length (laws.keys-set reference_key snap _) ∙ h.known;
        }
    resume_comes (Pc.set_reference snap counts) calls a left h =
        let steps = h.steps in
        let known = h.known in
        record { phase = h.phase; leads = h.leads; steps = omega arith; known = known }
    resume_comes (Pc.setting snap true []) calls a left h =
        let steps = h.steps in
        record {
          phase = inr (snap, h.phase.1, h.phase.0);
          leads = h.leads;
          steps = omega arith;
          known = h.known;
        }
    resume_comes (Pc.setting snap false []) calls a left h =
        let steps = h.steps in
        record {
          phase = inr (snap, h.phase.1, h.phase.0);
          leads = h.leads;
          steps = omega arith;
          known = h.known;
        }
    resume_comes (Pc.setting snap counts (node ∷ nodes)) calls a left h =
        let steps = h.steps in
        record {
          phase = (h.phase.0, reference_kept node snap _ h.phase.1);
          leads = h.leads;
          steps = omega arith;
          known = ap length (laws.keys-set node snap _) ∙ h.known;
        }
    resume_comes Pc.panicked calls a left h = absurd h.phase

    -- A step of the loader brings it nearer.
    pub advance_comes :
        (a : Aggregator S) (t : Thread) (left : ℕ)
        → IsAt cache k goal left a t
        → let r = advance cache marshals listener_ports range (a, t) in
          IsAt cache k goal (left - 1) r.0 r.1
    unfolding advance
    advance_comes a t left h = resume_comes t.pc t.calls a left h
