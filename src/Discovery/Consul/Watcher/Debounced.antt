-- ===== src/Discovery/Consul/Watcher/Debounced.antt =====
-- The debouncing watcher against the immediate one, which hands on every change.
use mathlib.Core.List.{Sublistᴰ}
use flexds.Prelude.{
  ℕ, ◌≡◌, refl, sym, ◌∙◌, Bool, true, false, Option, none, some, List, [], ◌∷◌, arith, eqb,
  Bool-cases, inl, inr,
}
use flexds.Strings.{Text}
use flexds.Discovery.Consul.Watcher.{
  failed, answered, Round, done, fired, fetched, goes_on, run, immediate, DebounceState,
  debounce_start, debounce, debounce_watcher, immediate_watcher, watch,
}
use flexds.Discovery.Consul.Watcher.Covers.{Covers, Covers-stop, Covers-change, Covers-fire}
use flexds.Discovery.Consul.Watcher.Loop.{
  AllCanHappen, After, last_or, running, fired_running, run_goes_on, changes_of, changes_same,
  changes_new,
}

-- The timer runs exactly while an update is pending.
abbrev pub IsTimed : DebounceState → Type 0
IsTimed s = running s.timer ≡ s.pending_update

pub debounce_change :
    (interval : ℕ) (s : DebounceState) (index : ℕ) (names : List Text)
    → eqb index s.last_index ≡ false
    → debounce interval s (fetched (answered index names))
      ≡ goes_on
          (record {
            last_index = index;
            pending_update = true;
            latest_services = names;
            timer = some interval;
          })
          []
unfolding debounce
debounce_change interval s index names h = ground arith

pub debounce_same :
    (interval : ℕ) (s : DebounceState) (index : ℕ) (names : List Text)
    → eqb index s.last_index ≡ true
    → debounce interval s (fetched (answered index names)) ≡ goes_on s []
unfolding debounce
debounce_same interval s index names h = rw h

abbrev busy : DebounceState → Bool
busy s = s.pending_update

abbrev pub timer_of : DebounceState → Option ℕ
timer_of s = s.timer

module _ (interval : ℕ) where
  abbrev Happens : DebounceState → List Round → Type 0
  Happens = AllCanHappen timer_of (debounce interval)

  abbrev Covered : DebounceState → List Round → Type 0
  Covered s rounds =
      Covers busy s.pending_update s.latest_services (changes_of s.last_index rounds)
        (run (debounce interval) s rounds)

  abbrev next : DebounceState → ℕ → List Text → DebounceState
  next s index names = record {
    last_index = index;
    pending_update = true;
    latest_services = names;
    timer = some interval;
  }

  answered-Covered :
      (s : DebounceState) (index : ℕ) (names : List Text) (rounds : List Round)
      → After (λ s'. Happens s' rounds) (debounce interval s (fetched (answered index names)))
      → (Happens s rounds → Covered s rounds)
      → (Happens (next s index names) rounds → Covered (next s index names) rounds)
      → Covered s (fetched (answered index names) ∷ rounds)
  answered-Covered s index names rounds h same new = elim (Bool-cases (eqb index s.last_index)) [
    | inl e ↦
        let step = debounce_same interval s index names e in
        rw
          (
            run_goes_on (debounce interval) s s _ [] rounds step,
            changes_same s.last_index index names rounds e,
          )
          (same (rw step at h))
    | inr e ↦
        let step = debounce_change interval s index names e in
        rw
          (
            run_goes_on (debounce interval) s (next s index names) _ [] rounds step,
            changes_new s.last_index index names rounds e,
          )
          (Covers-change busy s.pending_update s.latest_services names _ _ (new (rw step at h)))
  ]

  run-Covers :
      (s : DebounceState) (rounds : List Round) → IsTimed s → Happens s rounds → Covered s rounds
  unfolding run debounce immediate
  run-Covers s [] t h = Covers-stop busy s.pending_update s.latest_services s refl
  run-Covers s (done ∷ rounds) t h =
      Covers-stop busy s.pending_update s.latest_services (record s { timer = none }) refl
  run-Covers s (fired ∷ rounds) t (can, h) =
      Covers-fire busy s.pending_update s.latest_services _ _ (sym t ∙ fired_running s.timer can)
        (run-Covers (record s { pending_update = false; timer = none }) rounds refl h)
  run-Covers s (fetched (failed true) ∷ rounds) t h =
      Covers-stop busy s.pending_update s.latest_services (record s { timer = none }) refl
  run-Covers s (fetched (failed false) ∷ rounds) t (_, h) = run-Covers s rounds t h
  run-Covers s (fetched (answered index names) ∷ rounds) t (_, h) =
      answered-Covered s index names rounds h (run-Covers s rounds t)
        (run-Covers (next s index names) rounds refl)

  -- Where the timer fires only while it runs: the calls of the debouncing watcher are some of the
  -- immediate watcher's, in their order, and none is made twice.
  pub watch-debounce_thins :
      (rounds : List Round)
      → AllCanHappen timer_of (debounce interval) debounce_start rounds
      → Sublistᴰ (watch (debounce_watcher interval) rounds) (watch immediate_watcher rounds)
  unfolding watch
  watch-debounce_thins rounds h = (run-Covers debounce_start rounds refl h).thinned

  -- Where the timer fires only while it runs, and no update is pending at the end: the last call
  -- of the debouncing watcher has the same services as the last call of the immediate watcher. No
  -- change was lost.
  pub watch-debounce_caught_up :
      (rounds : List Round) (d : List Text)
      → AllCanHappen timer_of (debounce interval) debounce_start rounds
      → (run (debounce interval) debounce_start rounds).0.pending_update ≡ false
      → last_or d (watch (debounce_watcher interval) rounds)
        ≡ last_or d (watch immediate_watcher rounds)
  unfolding watch
  watch-debounce_caught_up rounds d h quiet =
      (run-Covers debounce_start rounds refl h).caught_up quiet d
