-- ===== src/Discovery/Consul/Timed/Turns.antt =====
-- Turns of a loop with a timer: in which it goes on, how long they take, and what is left of a timer.
use flexds.Prelude.{
  ℕ, ◌+◌, ◌-◌, ◌≤◌, ◌≡◌, refl, true, false, Option, none, some, List, [], ◌∷◌, eqb, arith,
}
use flexds.Discovery.Consul.Watcher.{failed, answered}
use flexds.Discovery.Consul.Watcher.Loop.{running}
use flexds.Discovery.Consul.Timed.{Turn, cancelled, query, time_of, run_down, is_down}

-- The loop goes on behind the turn.
abbrev pub GoesOn : Turn → Type 0
GoesOn (cancelled timer_first) = ⊥
GoesOn (query took (failed context_done)) = context_done ≡ false
GoesOn (query took (answered index names)) = Unit

-- The query fails, or its answer has the index.
abbrev pub IsQuiet : ℕ → Turn → Type 0
IsQuiet last_index (cancelled timer_first) = ⊥
IsQuiet last_index (query took (failed context_done)) = context_done ≡ false
IsQuiet last_index (query took (answered index names)) = eqb index last_index ≡ true

abbrev pub duration : List Turn → ℕ
duration [] = 0
duration (cancelled timer_first ∷ turns) = duration turns
duration (query took answer ∷ turns) = time_of took answer + duration turns

abbrev pub left_of : Option ℕ → ℕ
left_of none = 0
left_of (some left) = left

pub not_running : (t : Option ℕ) → is_down t ≡ false → left_of t ≡ 0 → running t ≡ false
not_running none e z = refl
not_running (some left) e z = ground arith

pub left-run_down : (time : ℕ) (t : Option ℕ) → left_of (run_down time t) ≡ left_of t - time
left-run_down time none = omega arith
left-run_down time (some left) = refl

pub over_down : (t : Option ℕ) → running t ≡ true → left_of t ≤ 0 → is_down t ≡ true
over_down none r below = r
over_down (some left) r below = ground arith
