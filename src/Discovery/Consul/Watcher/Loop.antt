-- ===== src/Discovery/Consul/Watcher/Loop.antt =====
-- Rounds that can happen: a timer's channel is ready only while the timer runs. (Since Go 1.23 a
-- stopped or reset timer leaves no stale value in its channel.)
use flexds.Prelude.{ℕ, ◌≡◌, refl, ap, Bool, true, false, eqb, Option, none, some, List, [], ◌∷◌}
use flexds.Strings.{Text}
use flexds.Discovery.Consul.Watcher.{
  Round, done, fired, fetched, answered, Calls, prepend, Next, goes_on, stops, run, immediate,
}

abbrev pub CanHappen : Option ℕ → Round → Type 0
CanHappen none fired = ⊥
CanHappen (some left) fired = Unit
CanHappen timer done = Unit
CanHappen timer (fetched answer) = Unit

abbrev pub After {ℓ} : {S : Type 0} → (S → Type ℓ) → Next S → Type ℓ
After P (goes_on s calls) = P s
After P (stops s) = Unit

-- Each round can happen in the state that the rounds before it have led to.
abbrev pub AllCanHappen :
    {S : Type 0} → (S → Option ℕ) → (S → Round → Next S) → S → List Round → Type 0
AllCanHappen timer step s [] = Unit
AllCanHappen timer step s (r ∷ rounds) =
    CanHappen (timer s) r × After (λ s'. AllCanHappen timer step s' rounds) (step s r)

-- The last call, if any; `d` otherwise.
abbrev pub last_or {ℓ} : {A : Type ℓ} → A → List A → A
last_or d [] = d
last_or d (x ∷ xs) = last_or x xs

abbrev pub running : Option ℕ → Bool
running none = false
running (some left) = true

pub fired_running : (timer : Option ℕ) → CanHappen timer fired → running timer ≡ true
fired_running none h = absurd h
fired_running (some left) h = refl

-- A run whose first round makes calls and goes on.
pub run_goes_on :
    {S : Type 0} (step : S → Round → Next S) (s s' : S) (r : Round) (calls : Calls)
    (rounds : List Round)
    → step s r ≡ goes_on s' calls
    → run step s (r ∷ rounds) ≡ prepend calls (run step s' rounds)
unfolding run
run_goes_on step s s' r calls rounds h = rw (h, run)

pub run_stops :
    {S : Type 0} (step : S → Round → Next S) (s s' : S) (r : Round) (rounds : List Round)
    → step s r ≡ stops s'
    → run step s (r ∷ rounds) ≡ (s', [])
unfolding run
run_stops step s s' r rounds h = rw (h, run)

-- The calls of the immediate watcher: every change of the index, with its names.
abbrev pub changes_of : ℕ → List Round → Calls
changes_of last_index rounds = (run immediate last_index rounds).1

pub changes_same :
    (last_index index : ℕ) (names : List Text) (rounds : List Round)
    → eqb index last_index ≡ true
    → changes_of last_index (fetched (answered index names) ∷ rounds) ≡ changes_of last_index rounds
changes_same last_index index names rounds h =
    ap (λ r. r.1)
      (run_goes_on immediate last_index last_index (fetched (answered index names)) [] rounds
        (unfold immediate in rw h))

pub changes_new :
    (last_index index : ℕ) (names : List Text) (rounds : List Round)
    → eqb index last_index ≡ false
    → changes_of last_index (fetched (answered index names) ∷ rounds)
      ≡ names ∷ changes_of index rounds
changes_new last_index index names rounds h =
    ap (λ r. r.1)
      (run_goes_on immediate last_index index (fetched (answered index names)) (names ∷ []) rounds
        (unfold immediate in rw h))
