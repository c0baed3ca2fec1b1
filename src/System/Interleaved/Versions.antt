-- ===== src/System/Interleaved/Versions.antt =====
-- The versions of the snapshots that the loaders' goroutines create, under any schedule.
use flexds.Prelude.{
  ℕ, suc, ◌+◌, ◌%◌, ◌^◌, ◌<◌, ◌≡◌, ◌≢◌, ◌⊎◌, inl, inr, refl, sym, ◌∙◌, ap, Bool, true, false, none,
  some, List, [], ◌∷◌, ◌++◌, All, All-map, length, arith, Bool-cases,
}
use flexds.Results.Panics.{Run, returns, panics}
use flexds.Strings.{Text, itoa}
use flexds.Strings.Decimal.{itoa_injective}
use flexds.Xds.Resources.{Message, connection_manager, Resources, Snapshot}
use flexds.Xds.Clusters.{Built, build, is_nil}
use flexds.Xds.Cache.{Error, SnapshotCache}
use flexds.Common.ServiceModel.{DiscoveredService}
use flexds.Results.{Result, ok, err}
use flexds.Xds.SnapshotManager.{
  hcm_config, full_resources, empty_resources, snapshot_of, next_version,
}
use flexds.Discovery.Aggregator.{ServiceMap, Aggregator}
use flexds.Discovery.Aggregator.Interleaved.{
  Call, Pc, Thread, create, push, proceed, resume, advance,
}
use flexds.System.Interleaved.{
  Picked, pick, get_reference, set_own, State, Turn, first_moves, second_moves, gets, sets,
  take_turn,
}

-- The version of the snapshot that a goroutine's move creates, if it does.
abbrev pub made : Pc → Pc → List Text
made (Pc.collected all) (Pc.created snap counts) = snap.version ∷ []
made before after = []

-- No text stands twice in the list.
abbrev pub Distinct : List Text → Type 0
Distinct [] = Unit
Distinct (t ∷ texts) = All (λ u. u ≢ t) texts × Distinct texts

-- A move leaves the version as it is and creates nothing, or takes the next version, and creates a
-- snapshot with that or none.
abbrev Takes : ℕ → ℕ → List Text → Type 0
Takes v v' texts =
    ((v' ≡ v) × (texts ≡ []))
    ⊎ ((v' ≡ next_version v) × ((texts ≡ []) ⊎ (texts ≡ itoa (next_version v) ∷ [])))

-- The version is one of the `n` that follow `v`.
abbrev Ahead : ℕ → ℕ → Text → Type 0
Ahead v n t = (k : ℕ) × (k < n) × (t ≡ itoa ((v + suc k) % 2 ^ 64))

Ahead-same : (v n : ℕ) (t : Text) → Ahead v n t → Ahead v (suc n) t
Ahead-same v n t (k, few, e) = (k, omega arith, e)

Ahead-later : (v n : ℕ) (t : Text) → Ahead (next_version v) n t → Ahead v (suc n) t
Ahead-later v n t (k, few, e) = (suc k, omega arith, e ∙ ap itoa (omega arith))

-- What follows a move that takes or leaves the version.
Ahead-next :
    (v v' n : ℕ) (first rest : List Text)
    → Takes v v' first
    → All (Ahead v' n) rest
    → All (Ahead v (suc n)) (first ++ rest)
Ahead-next v v' n first rest (inl (same, nothing)) h =
    rw nothing (All-map (λ t. Ahead-same v n t) rest (rw same at h))
Ahead-next v v' n first rest (inr (next, inl nothing)) h =
    rw nothing (All-map (λ t. Ahead-later v n t) rest (rw next at h))
Ahead-next v v' n first rest (inr (next, inr one)) h =
    rw one (
      (0, omega arith, ap itoa (omega arith)),
      All-map (λ t. Ahead-later v n t) rest (rw next at h),
    )

Ahead-ne : (v n : ℕ) (u : Text) → v < 2 ^ 64 → n < 2 ^ 64 → Ahead v n u → u ≢ itoa v
Ahead-ne v n u small few (k, lt, e) same =
    let back = itoa_injective ((v + suc k) % 2 ^ 64) v (sym e ∙ same) in absurd (omega arith)

Distinct-next :
    (v v' n : ℕ) (first rest : List Text)
    → n < 2 ^ 64
    → Takes v v' first
    → All (Ahead v' n) rest
    → Distinct rest
    → Distinct (first ++ rest)
Distinct-next v v' n first rest few (inl (same, nothing)) h d = rw nothing d
Distinct-next v v' n first rest few (inr (next, inl nothing)) h d = rw nothing d
Distinct-next v v' n first rest few (inr (next, inr one)) h d = rw one (
  All-map (λ u ahead. Ahead-ne (next_version v) n u (omega arith) few ahead) rest (rw next at h),
  d,
)

module _ {S : Type 0} (cache : SnapshotCache S) (marshals : Message → Bool)
    (listener_ports : List ℕ) (range : ServiceMap → ServiceMap) where
  abbrev pub made_in : State S → Turn → List Text
  made_in s first_moves =
      made s.first.pc (take_turn cache marshals listener_ports range s first_moves).first.pc
  made_in s second_moves =
      made s.second.pc (take_turn cache marshals listener_ports range s second_moves).second.pc
  made_in s t = []

  -- The versions of all snapshots that are created in the turns, in order.
  abbrev pub versions : State S → List Turn → List Text
  versions s [] = []
  versions s (t ∷ turns) =
      made_in s t ++ versions (take_turn cache marshals listener_ports range s t) turns

  abbrev TakesIn : Aggregator S → Pc → Aggregator S × Pc → Type 0
  TakesIn a pc r = Takes a.world.version r.0.world.version (made pc r.1)

  create-Takes :
      (all : List DiscoveredService) (resources : Resources) (counts : Bool) (a : Aggregator S)
      → TakesIn a (Pc.collected all) (create cache marshals listener_ports range resources counts a)
  unfolding create
  create-Takes all resources counts a =
      elim (Bool-cases (cache.accepts (snapshot_of cache a.world resources).version resources)) [
        | inl e ↦ rw e (inr (refl, inr refl))
        | inr e ↦ rw e (inr (refl, inl refl))
      ]

  push-Takes :
      (all : List DiscoveredService) (m : Run Built) (a : Aggregator S)
      → TakesIn a (Pc.collected all) (push cache marshals listener_ports range m a)
  unfolding push
  push-Takes all panics a = inl (refl, refl)
  push-Takes all (returns b) a = elim (Bool-cases (is_nil b.clusters)) [
    | inl e ↦ rw e (create-Takes all empty_resources false a)
    | inr e ↦ rw e (elim (Bool-cases (marshals (connection_manager hcm_config))) [
      | inl f ↦ rw f (create-Takes all (full_resources listener_ports b) true a)
      | inr f ↦ rw f (inl (refl, refl))
    ])
  ]

  resume-Takes :
      (pc : Pc) (calls : List Call) (a : Aggregator S)
      → let r = resume cache marshals listener_ports range pc calls a in
        Takes a.world.version r.0.world.version (made pc r.1.pc)
  unfolding resume proceed
  resume-Takes Pc.idle [] a = inl (refl, refl)
  resume-Takes Pc.idle (c ∷ calls) a = inl (refl, refl)
  resume-Takes Pc.stored calls a = inl (refl, refl)
  resume-Takes (Pc.collected all) calls a = push-Takes all (build marshals all) a
  resume-Takes (Pc.created snap counts) calls a = inl (refl, refl)
  resume-Takes (Pc.set_reference snap counts) calls a = inl (refl, refl)
  resume-Takes (Pc.setting snap true []) calls a = inl (refl, refl)
  resume-Takes (Pc.setting snap false []) calls a = inl (refl, refl)
  resume-Takes (Pc.setting snap counts (node ∷ nodes)) calls a = inl (refl, refl)
  resume-Takes Pc.panicked calls a = inl (refl, refl)

  advance-Takes :
      (a : Aggregator S) (t : Thread)
      → let r = advance cache marshals listener_ports range (a, t) in
        Takes a.world.version r.0.world.version (made t.pc r.1.pc)
  unfolding advance
  advance-Takes a t = resume-Takes t.pc t.calls a

  take_turn-Takes :
      (s : State S) (t : Turn)
      → Takes s.aggregator.world.version
          (take_turn cache marshals listener_ports range s t).aggregator.world.version
          (made_in s t)
  unfolding take_turn
  take_turn-Takes s first_moves = advance-Takes s.aggregator s.first
  take_turn-Takes s second_moves = advance-Takes s.aggregator s.second
  take_turn-Takes s (gets node) = inl (get_reference-version _, refl)
    where
      get_reference-version :
          (r : Result Error Snapshot)
          → (get_reference cache marshals listener_ports range node r s).aggregator.world.version
            ≡ s.aggregator.world.version
      get_reference-version (ok snap) = refl
      get_reference-version (err e) = refl
  take_turn-Takes s (sets n) = inl (set_own-version (pick n s.callbacks), refl)
    where
      set_own-version :
          (p : Picked)
          → (set_own cache marshals listener_ports range p s).aggregator.world.version
            ≡ s.aggregator.world.version
      set_own-version none = refl
      set_own-version (some (c, rest)) = refl

  versions-Ahead :
      (turns : List Turn) (s : State S)
      → All (Ahead s.aggregator.world.version (length turns)) (versions s turns)
  versions-Ahead [] s = tt
  versions-Ahead (t ∷ turns) s =
      Ahead-next s.aggregator.world.version _ (length turns) (made_in s t)
        (versions (take_turn cache marshals listener_ports range s t) turns) (take_turn-Takes s t)
        (versions-Ahead turns (take_turn cache marshals listener_ports range s t))

  later-Distinct :
      (turns : List Turn) (s : State S) → length turns < 2 ^ 64 → Distinct (versions s turns)
  later-Distinct [] s few = tt
  later-Distinct (t ∷ turns) s few =
      let next = take_turn cache marshals listener_ports range s t in
      Distinct-next s.aggregator.world.version next.aggregator.world.version (length turns)
        (made_in s t) (versions next turns) (omega arith) (take_turn-Takes s t)
        (versions-Ahead turns next) (later-Distinct turns next (omega arith))

  -- Whatever the schedule, in fewer than 2^64 turns no two snapshots that the loaders' goroutines
  -- create have the same version, and none has the one that the program had before, whichever
  -- messages can be marshalled and whichever snapshots NewSnapshot refuses.
  pub versions-Distinct :
      (turns : List Turn) (s : State S)
      → s.aggregator.world.version < 2 ^ 64
      → length turns < 2 ^ 64
      → Distinct (itoa s.aggregator.world.version ∷ versions s turns)
  versions-Distinct turns s small few = (
    All-map (λ u ahead. Ahead-ne s.aggregator.world.version (length turns) u small few ahead)
        (versions s turns) (versions-Ahead turns s),
    later-Distinct turns s few,
  )
