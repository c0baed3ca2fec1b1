-- ===== src/Discovery/Consul/Timed/Starves.antt =====
-- DebounceWatcher while every query brings a change.
use flexds.Prelude.{
  ℕ, suc, ◌<◌, ◌≡◌, refl, ap, true, false, some, List, [], ◌∷◌, map, length, eqb, arith,
}
use flexds.Discovery.Consul.Watcher.{
  failed, answered, DebounceState, debounce_start, debounce, watch, immediate_watcher, run,
}
use flexds.Discovery.Consul.Watcher.Loop.{changes_of, changes_new}
use flexds.Discovery.Consul.Watcher.Debounced.{timer_of, debounce_change}
use flexds.Discovery.Consul.Timed.{Turn, cancelled, query, is_down, elapse, timed}
use flexds.Discovery.Consul.Timed.Debounced.{set_timer, timed_debounce}
use flexds.Discovery.Consul.Timed.Rounds.{round_of}

-- Each turn is a query that answers with another index than the one before.
abbrev pub Changes : ℕ → List Turn → Type 0
Changes last_index [] = Unit
Changes last_index (cancelled timer_first ∷ turns) = ⊥
Changes last_index (query took (failed context_done) ∷ turns) = ⊥
Changes last_index (query took (answered index names) ∷ turns) =
    (eqb index last_index ≡ false) × Changes index turns

module _ (interval : ℕ) (positive : 0 < interval) where
  no_calls :
      (s : DebounceState) (turns : List Turn)
      → is_down s.timer ≡ false
      → Changes s.last_index turns
      → (timed timer_of set_timer (debounce interval) s turns).1 ≡ []
  unfolding timed
  no_calls s [] up h = refl
  no_calls s (cancelled timer_first ∷ turns) up h = absurd h
  no_calls s (query took (failed context_done) ∷ turns) up h = absurd h
  no_calls s (query took (answered index names) ∷ turns) up (new, h) =
      let s1 : DebounceState = record {
        last_index = index;
        pending_update = true;
        latest_services = names;
        timer = some interval;
      } in
      rw
        (
          up,
          debounce_change interval (elapse timer_of set_timer (debounce interval) took s) index
              names new,
        )
        (no_calls s1 turns (ground (arith, positive)) h)

all_calls :
    (last_index : ℕ) (turns : List Turn)
    → Changes last_index turns
    → length (changes_of last_index (map round_of turns)) ≡ length turns
unfolding run
all_calls last_index [] h = refl
all_calls last_index (cancelled timer_first ∷ turns) h = absurd h
all_calls last_index (query took (failed context_done) ∷ turns) h = absurd h
all_calls last_index (query took (answered index names) ∷ turns) (new, h) =
    rw (changes_new last_index index names (map round_of turns) new)
      (ap suc (all_calls index turns h))

-- While every query answers with a change, the debouncing watcher does not call its handler, however
-- many changes there are and however long the queries take: the timer that has run down during a
-- query is started anew by the query's answer before the loop looks at it. (The interval is
-- positive.) The immediate watcher makes a call for each of the same changes.
pub timed_debounce_starves :
    (interval : ℕ) (turns : List Turn)
    → 0 < interval
    → Changes 0 turns
    → ((timed_debounce interval turns).1 ≡ [])
      × (length (watch immediate_watcher (map round_of turns)) ≡ length turns)
unfolding watch
timed_debounce_starves interval turns positive h =
    (no_calls interval positive debounce_start turns refl h, all_calls 0 turns h)
