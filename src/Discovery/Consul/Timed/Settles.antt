-- ===== src/Discovery/Consul/Timed/Settles.antt =====
-- DebounceWatcher with the times, against ImmediateWatcher on the same answers: once nothing
-- changes for the interval, the last change has been handed on.
use flexds.Prelude.{
  ℕ, ◌≤◌, ◌≡◌, refl, sym, ◌∙◌, ap, List, [], ◌∷◌, ◌++◌, map, All, eqb, Bool-cases, inl, inr, arith,
}
use flexds.Strings.{Text}
use flexds.Discovery.Consul.Watcher.{
  Answer, answered, fetched, DebounceState, debounce_start, debounce, watch, immediate_watcher,
}
use flexds.Discovery.Consul.Watcher.Loop.{last_or}
use flexds.Discovery.Consul.Watcher.Debounced.{
  timer_of, debounce_change, debounce_same, watch-debounce_caught_up,
}
use flexds.Discovery.Consul.Timed.{Turn, query}
use flexds.Discovery.Consul.Timed.Debounced.{
  set_timer, timed_debounce, debounce_rounds, timed_debounce_erased,
}
use flexds.Discovery.Consul.Timed.Turns.{GoesOn, IsQuiet, duration}
use flexds.Discovery.Consul.Timed.Steady.{Steady, nothing_held}
use flexds.Discovery.Consul.Timed.Rounds.{GoesOnBehind, round_of, rounds_same}

module _ (interval : ℕ) where
  steady : Steady timer_of set_timer (debounce interval)
  unfolding debounce
  steady = record {
    index = λ s. s.last_index;
    busy = λ s. s.pending_update;
    limit = interval;
    set_on = λ t s. (refl, refl, refl);
    fired_on = λ s e. (_, _, refl, refl, refl, refl);
    failed_on = λ s. refl;
    same_on = λ s i names e. debounce_same interval s i names e;
    changed_on =
        λ s i names e runs below. (_, _, debounce_change interval s i names e, refl, omega arith);
  }

  answers :
      (s : DebounceState) (index : ℕ) (names : List Text)
      → GoesOnBehind timer_of set_timer (debounce interval) s (fetched (answered index names))
  answers s index names = elim (Bool-cases (eqb index s.last_index)) [
    | inl e ↦ (_, _, debounce_same interval s index names e)
    | inr e ↦ (_, _, debounce_change interval s index names e)
  ]

  -- The loop goes on through any turns. Then for at least the interval, and one turn more, queries
  -- fail or answer with the index that was seen last. The last call of the debouncing watcher then
  -- has the services of the last call that the immediate watcher makes on the same answers: no
  -- change is lost.
  pub timed_debounce_settles :
      (turns quiet : List Turn) (took : ℕ) (answer : Answer) (d : List Text)
      → All GoesOn turns
      → All (IsQuiet (timed_debounce interval turns).0.last_index) quiet
      → IsQuiet (timed_debounce interval turns).0.last_index (query took answer)
      → interval ≤ duration quiet
      → let all = turns ++ (quiet ++ query took answer ∷ []) in
        last_or d (timed_debounce interval all).1
        ≡ last_or d (watch immediate_watcher (map round_of all))
  unfolding watch debounce steady
  timed_debounce_settles turns quiet took answer d g qs q long =
      let all = turns ++ (quiet ++ query took answer ∷ []) in
      let (calls, (can, (same, runs))) = timed_debounce_erased interval all in
      let over =
        nothing_held timer_of set_timer (debounce interval) steady debounce_start turns quiet took
          answer (record { timed = refl; below = omega arith }) g qs q long in
      ap (λ c. last_or d c) calls
      ∙ watch-debounce_caught_up interval (debounce_rounds interval all) d can
          (sym (ap (λ s. s.pending_update) same) ∙ over)
      ∙ ap (λ c. last_or d c)
          (rounds_same timer_of set_timer (debounce interval) (λ s. (_, _, refl))
            (λ s. (_, _, refl)) answers debounce_start 0 all)
