-- ===== src/Discovery/Consul/Timed.antt =====
-- The Watch of DebounceWatcher and of BatchWatcher with the time that passes, in milliseconds: how
-- long each query takes, the second that the loop sleeps when one fails, and timers that run down
-- meanwhile. The select takes a timer's channel as soon as the timer has run down; what comes from
-- outside is only the answers, and when the context is cancelled.
pub mod Turns
pub mod Erased
pub mod Debounced
pub mod Batched
pub mod Steady
pub mod Rounds
pub mod Settles
pub mod Empties
pub mod Latest
pub mod Starves
pub mod Waits
mod Tests
use flexds.Prelude.{
  ℕ, ◌+◌, ◌-◌, Bool, true, false, Option, none, some, List, [], ◌∷◌, ◌++◌, eqb, if◌then◌else◌,
}
use flexds.Discovery.Consul.Watcher.{
  Answer, failed, answered, Round, done, fired, fetched, Calls, Next, goes_on, stops, prepend,
}

-- A turn of the loop, or two where the timer has run down: the context is cancelled, and where both
-- channels are ready the select takes the timer's first or not; or a query is made, which takes some
-- time.
pub data Turn : Type 0 where
  cancelled : (timer_first : Bool) → Turn
  query : (took : ℕ) → Answer → Turn

-- The time that a query takes, with time.Sleep(1 * time.Second) behind one that has failed.
abbrev pub time_of : ℕ → Answer → ℕ
time_of took (failed context_done) = took + 1000
time_of took (answered index names) = took

abbrev pub run_down : ℕ → Option ℕ → Option ℕ
run_down time none = none
run_down time (some left) = some (left - time)

abbrev pub is_down : Option ℕ → Bool
is_down none = false
is_down (some left) = eqb left 0

abbrev pub and_then : {S : Type 0} → Next S → (S → S × Calls) → S × Calls
and_then (goes_on s calls) k = prepend calls (k s)
and_then (stops s) k = (s, [])

abbrev pub rounds_then : {S : Type 0} → Next S → (S → List Round) → List Round
rounds_then (goes_on s calls) k = k s
rounds_then (stops s) k = []

-- A loop with its timer: `step` is what it does in a round.
module _ {S : Type 0} (timer : S → Option ℕ) (set_timer : Option ℕ → S → S)
    (step : S → Round → Next S) where
  -- The select takes the timer's channel.
  abbrev pub wake : S → Next S
  wake s = if is_down (timer s) then step s fired else goes_on s []

  abbrev pub elapse : ℕ → S → S
  elapse time s = set_timer (run_down time (timer s)) s

  abbrev pub asks : ℕ → Answer → S → Next S
  asks took answer s = step (elapse (time_of took answer) s) (fetched answer)

  unfoldable pub timed : S → List Turn → S × Calls
  timed s [] = (s, [])
  timed s (cancelled true ∷ turns) =
      and_then (wake s) (λ s1. and_then (step s1 done) (λ s2. (s2, [])))
  timed s (cancelled false ∷ turns) = and_then (step s done) (λ s1. (s1, []))
  timed s (query took answer ∷ turns) =
      and_then (wake s) (λ s1. and_then (asks took answer s1) (λ s2. timed s2 turns))

  abbrev pub woken : S → List Round
  woken s = if is_down (timer s) then fired ∷ [] else []

  -- The rounds that the loop meets, without the times.
  unfoldable pub rounds_of : S → List Turn → List Round
  rounds_of s [] = []
  rounds_of s (cancelled true ∷ turns) =
      woken s ++ rounds_then (wake s) (λ s1. done ∷ rounds_then (step s1 done) (λ s2. []))
  rounds_of s (cancelled false ∷ turns) = done ∷ rounds_then (step s done) (λ s1. [])
  rounds_of s (query took answer ∷ turns) =
      woken s
      ++ rounds_then (wake s)
          (λ s1. fetched answer ∷ rounds_then (asks took answer s1) (λ s2. rounds_of s2 turns))
