-- ===== src/System/Interleaved/Whole.antt =====
-- No schedule lets a node see a snapshot whose parts do not fit together.
use flexds.Prelude.{
  ℕ, ◌≡◌, refl, ◌∙◌, sym, Bool, true, false, none, some, List, [], ◌∷◌, All, Bool-cases, inl, inr,
}
use flexds.Results.{Result, ok, err}
use flexds.Results.Panics.{Run, returns, panics}
use flexds.Strings.{Text}
use flexds.Strings.Equality.{Text-cases, ==_iff}
use flexds.Xds.Resources.{Message, connection_manager, Resources, Snapshot}
use flexds.Xds.Clusters.{Built, build, is_nil}
use flexds.Xds.Clusters.Integrity.{build-IsClosed}
use flexds.Xds.Cache.{Error, SnapshotCache, CacheLaws, IsReliable}
use flexds.Xds.SnapshotManager.{
  hcm_config, reference_key, full_resources, empty_resources, snapshot_of,
}
use flexds.Xds.SnapshotManager.Whole.{IsWhole, empty_resources-IsWhole, full_resources-IsWhole}
use flexds.Discovery.Aggregator.{ServiceMap, Aggregator}
use flexds.Discovery.Aggregator.Interleaved.{
  Call, Pc, Thread, create, push, proceed, resume, advance,
}
use flexds.System.Interleaved.Picks.{AllPicked, pick-AllPicked}
use flexds.System.Interleaved.{
  State, Turn, first_moves, second_moves, gets, sets, Picked, pick, get_reference, set_own,
  take_turn, take_turns,
}

-- The snapshot that a goroutine is about to set is whole.
abbrev pub HoldsWhole : Pc → Type 0
HoldsWhole (Pc.created snap counts) = IsWhole snap.resources
HoldsWhole (Pc.set_reference snap counts) = IsWhole snap.resources
HoldsWhole (Pc.setting snap counts nodes) = IsWhole snap.resources
HoldsWhole pc = Unit

abbrev pub Carries : Text × Snapshot → Type 0
Carries c = IsWhole c.1.resources

module _ {S : Type 0} (cache : SnapshotCache S) where
  abbrev pub ServesWhole : S → Type 0
  ServesWhole s =
      (node : Text) (snap : Snapshot) → cache.get_snapshot node s ≡ ok snap → IsWhole snap.resources

  -- Every snapshot in the cache, and every one on its way there, is whole.
  pub record AllWhole (s : State S) : Type 0 where
    pub serves : ServesWhole s.aggregator.world.cache_state
    pub first : HoldsWhole s.first.pc
    pub second : HoldsWhole s.second.pc
    pub carried : All Carries s.callbacks

module _ {S : Type 0} (cache : SnapshotCache S) (laws : CacheLaws cache)
    (reliable : IsReliable cache) where
  set-ServesWhole :
      (other : Text) (snap : Snapshot) (s : S)
      → IsWhole snap.resources
      → ServesWhole cache s
      → ServesWhole cache (cache.set_snapshot other snap s).0
  set-ServesWhole other snap s whole h node found e = elim (Text-cases other node) [
    | inl same ↦
        let now = laws.get-set_self other snap s (reliable.sets other snap s) in
        let is : snap ≡ found = cc in rw (← is) whole
    | inr differs ↦ h node found (
        sym (laws.get-set_other other node snap s (λ p. cc ((==_iff other node).1 p, differs))) ∙ e)
  ]

  module _ (marshals : Message → Bool) (listener_ports : List ℕ)
      (range : ServiceMap → ServiceMap) where
    abbrev Keeps : Aggregator S × Pc → Type 0
    Keeps r = ServesWhole cache r.0.world.cache_state × HoldsWhole r.1

    create-Keeps :
        (resources : Resources) (counts : Bool) (a : Aggregator S)
        → IsWhole resources
        → ServesWhole cache a.world.cache_state
        → Keeps (create cache marshals listener_ports range resources counts a)
    unfolding create
    create-Keeps resources counts a whole h =
        elim (Bool-cases (cache.accepts (snapshot_of cache a.world resources).version resources)) [
          | inl e ↦ rw e (h, whole)
          | inr e ↦ rw e (h, tt)
        ]

    push-Keeps :
        (m : Run Built) (a : Aggregator S)
        → ((b : Built) → m ≡ returns b → IsWhole (full_resources listener_ports b))
        → ServesWhole cache a.world.cache_state
        → Keeps (push cache marshals listener_ports range m a)
    unfolding push
    push-Keeps panics a whole h = (h, tt)
    push-Keeps (returns b) a whole h = elim (Bool-cases (is_nil b.clusters)) [
      | inl e ↦ rw e (create-Keeps empty_resources false a empty_resources-IsWhole h)
      | inr e ↦ rw e (elim (Bool-cases (marshals (connection_manager hcm_config))) [
        | inl f ↦ rw f (create-Keeps (full_resources listener_ports b) true a (whole b refl) h)
        | inr f ↦ rw f (h, tt)
      ])
    ]

    proceed-Keeps :
        (pc : Pc) (a : Aggregator S)
        → HoldsWhole pc
        → ServesWhole cache a.world.cache_state
        → Keeps (proceed cache marshals listener_ports range pc a)
    unfolding proceed
    proceed-Keeps Pc.idle a w h = (h, tt)
    proceed-Keeps Pc.stored a w h = (h, tt)
    proceed-Keeps (Pc.collected all) a w h =
        push-Keeps (build marshals all) a
          (λ b e. full_resources-IsWhole listener_ports b (build-IsClosed marshals all b e)) h
    proceed-Keeps (Pc.created snap counts) a w h = (set-ServesWhole reference_key snap _ w h, w)
    proceed-Keeps (Pc.set_reference snap counts) a w h = (h, w)
    proceed-Keeps (Pc.setting snap true []) a w h = (h, tt)
    proceed-Keeps (Pc.setting snap false []) a w h = (h, tt)
    proceed-Keeps (Pc.setting snap counts (node ∷ nodes)) a w h =
        (set-ServesWhole node snap _ w h, w)
    proceed-Keeps Pc.panicked a w h = (h, tt)

    resume-Keeps :
        (pc : Pc) (calls : List Call) (a : Aggregator S)
        → HoldsWhole pc
        → ServesWhole cache a.world.cache_state
        → let r = resume cache marshals listener_ports range pc calls a in Keeps (r.0, r.1.pc)
    unfolding resume
    resume-Keeps Pc.idle [] a w h = (h, tt)
    resume-Keeps Pc.idle (c ∷ calls) a w h = (h, tt)
    resume-Keeps Pc.stored calls a w h = proceed-Keeps Pc.stored a w h
    resume-Keeps (Pc.collected all) calls a w h = proceed-Keeps (Pc.collected all) a w h
    resume-Keeps (Pc.created snap counts) calls a w h = proceed-Keeps (Pc.created snap counts) a w h
    resume-Keeps (Pc.set_reference snap counts) calls a w h =
        proceed-Keeps (Pc.set_reference snap counts) a w h
    resume-Keeps (Pc.setting snap counts nodes) calls a w h =
        proceed-Keeps (Pc.setting snap counts nodes) a w h
    resume-Keeps Pc.panicked calls a w h = proceed-Keeps Pc.panicked a w h

    -- The goroutine's move keeps what the cache serves and what the goroutine holds whole.
    advance-Keeps :
        (a : Aggregator S) (t : Thread)
        → HoldsWhole t.pc
        → ServesWhole cache a.world.cache_state
        → let r = advance cache marshals listener_ports range (a, t) in Keeps (r.0, r.1.pc)
    unfolding advance
    advance-Keeps a t w h = resume-Keeps t.pc t.calls a w h

    get_reference-AllWhole :
        (node : Text) (r : Result Error Snapshot) (s : State S)
        → cache.get_snapshot reference_key s.aggregator.world.cache_state ≡ r
        → AllWhole cache s
        → AllWhole cache (get_reference cache marshals listener_ports range node r s)
    unfolding get_reference
    get_reference-AllWhole node (err e) s found h = h
    get_reference-AllWhole node (ok snap) s found h = record {
      serves = h.serves;
      first = h.first;
      second = h.second;
      carried = (h.serves reference_key snap found, h.carried);
    }

    set_own-AllWhole :
        (p : Picked) (s : State S)
        → AllPicked Carries p
        → AllWhole cache s
        → AllWhole cache (set_own cache marshals listener_ports range p s)
    unfolding set_own
    set_own-AllWhole none s c h = h
    set_own-AllWhole (some ((node, snap), rest)) s (whole, carried) h = record {
      serves = set-ServesWhole node snap _ whole h.serves;
      first = h.first;
      second = h.second;
      carried = carried;
    }

    take_turn-AllWhole :
        (s : State S) (t : Turn)
        → AllWhole cache s
        → AllWhole cache (take_turn cache marshals listener_ports range s t)
    unfolding take_turn
    take_turn-AllWhole s first_moves h =
        let (serves, held) = advance-Keeps s.aggregator s.first h.first h.serves in
        record { serves = serves; first = held; second = h.second; carried = h.carried }
    take_turn-AllWhole s second_moves h =
        let (serves, held) = advance-Keeps s.aggregator s.second h.second h.serves in
        record { serves = serves; first = h.first; second = held; carried = h.carried }
    take_turn-AllWhole s (gets node) h = get_reference-AllWhole node _ s refl h
    take_turn-AllWhole s (sets n) h =
        set_own-AllWhole (pick n s.callbacks) s (pick-AllPicked Carries n s.callbacks h.carried) h

    -- Where SetSnapshot does not fail: from a state in which every snapshot that the cache has, or
    -- that a goroutine is about to set, is whole, any schedule of the loaders' and the streams'
    -- steps leads to such a state again, whichever messages can be marshalled and whatever order
    -- `range` takes. So no node is ever given a route to a cluster that is not there, a cluster
    -- without its endpoints, or a listener without its routes.
    pub take_turns-AllWhole :
        (turns : List Turn) (s : State S)
        → AllWhole cache s
        → AllWhole cache (take_turns cache marshals listener_ports range s turns)
    unfolding take_turns
    take_turns-AllWhole [] s h = h
    take_turns-AllWhole (t ∷ turns) s h =
        take_turns-AllWhole turns (take_turn cache marshals listener_ports range s t)
          (take_turn-AllWhole s t h)
