-- ===== src/Discovery/Consul/Timed/Debounced.antt =====
-- DebounceWatcher: with the times, its calls are those of a run over rounds that can happen.
use flexds.Prelude.{
  ℕ, ◌≡◌, refl, sym, ◌∙◌, ap, true, false, Option, none, List, [], ◌∷◌, eqb, Bool-cases, inl, inr,
}
use flexds.Discovery.Consul.Watcher.{
  failed, answered, Round, done, fired, fetched, Calls, run, DebounceState, debounce_start,
  debounce, debounce_watcher, watch,
}
use flexds.Discovery.Consul.Watcher.Loop.{AllCanHappen, running}
use flexds.Discovery.Consul.Watcher.Debounced.{timer_of, debounce_change, debounce_same}
use flexds.Discovery.Consul.Timed.{Turn, timed, rounds_of}
use flexds.Discovery.Consul.Timed.Erased.{Alike, NextAlike, timed-SameAs}

abbrev pub set_timer : Option ℕ → DebounceState → DebounceState
set_timer t s = record s { timer = t }

-- DebounceWatcher.Watch, with the times.
abbrev pub timed_debounce : ℕ → List Turn → DebounceState × Calls
timed_debounce interval = timed timer_of set_timer (debounce interval) debounce_start

-- The rounds that it meets.
abbrev pub debounce_rounds : ℕ → List Turn → List Round
debounce_rounds interval = rounds_of timer_of set_timer (debounce interval) debounce_start

module _ (interval : ℕ) where
  debounce-Alike :
      (s s' : DebounceState)
      → Alike timer_of set_timer (debounce interval) s s'
      → (r : Round)
      → NextAlike timer_of set_timer
          (debounce interval)
          (debounce interval s r)
          (debounce interval s' r)
  unfolding debounce
  debounce-Alike s s' (same, runs) done = (same, refl)
  debounce-Alike s s' (same, runs) fired = (
    (ap {A = DebounceState} (λ t. record t { pending_update = false; timer = none }) same, refl),
    ap (λ t. t.latest_services ∷ []) same,
  )
  debounce-Alike s s' (same, runs) (fetched (failed true)) = (same, refl)
  debounce-Alike s s' (same, runs) (fetched (failed false)) = ((same, runs), refl)
  debounce-Alike s s' (same, runs) (fetched (answered index names)) =
      elim (Bool-cases (eqb index s.last_index)) [
        | inl e ↦
            rw
              (
                debounce_same interval s index names e,
                debounce_same interval s' index names (index_same ∙ e),
              )
              ((same, runs), refl)
        | inr e ↦
            rw
              (
                debounce_change interval s index names e,
                debounce_change interval s' index names (index_same ∙ e),
              )
              ((refl, refl), refl)
      ]
    where
      index_same : eqb index s'.last_index ≡ eqb index s.last_index
      index_same = ap (λ t. eqb index t.last_index) (sym same)

  set-Alike :
      (s : DebounceState) (t : Option ℕ)
      → running t ≡ running s.timer
      → Alike timer_of set_timer (debounce interval) (set_timer t s) s
  set-Alike s t h = (refl, h)

  -- With the times: the calls of the debouncing watcher are those of a run over the rounds that it
  -- meets, in which the timer fires only while it runs.
  pub timed_debounce_erased :
      (turns : List Turn)
      → ((timed_debounce interval turns).1
          ≡ watch (debounce_watcher interval) (debounce_rounds interval turns))
        × (AllCanHappen timer_of (debounce interval) debounce_start (debounce_rounds interval turns)
            × Alike timer_of set_timer
                (debounce interval)
                (timed_debounce interval turns).0
                (run (debounce interval) debounce_start (debounce_rounds interval turns)).0)
  unfolding watch
  timed_debounce_erased turns =
      timed-SameAs timer_of set_timer (debounce interval) debounce-Alike set-Alike debounce_start
        debounce_start turns (refl, refl)
