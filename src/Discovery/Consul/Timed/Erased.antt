-- ===== src/Discovery/Consul/Timed/Erased.antt =====
-- The timed loops against the loops over rounds: a timer's time decides which rounds the loop
-- meets, and nothing else.
use flexds.Prelude.{
  ℕ, ◌≡◌, refl, sym, ◌∙◌, true, false, Option, none, some, List, [], ◌∷◌, ◌++◌, Bool-cases, inl,
  inr,
}
use flexds.Discovery.Consul.Watcher.{
  Answer, Round, done, fired, fetched, Calls, Next, goes_on, stops, run,
}
use flexds.Discovery.Consul.Watcher.Loop.{CanHappen, AllCanHappen, running, run_goes_on, run_stops}
use flexds.Discovery.Consul.Timed.{
  Turn, cancelled, query, time_of, run_down, is_down, and_then, rounds_then, wake, asks, timed,
  woken, rounds_of,
}

pub running-run_down : (time : ℕ) (t : Option ℕ) → running (run_down time t) ≡ running t
running-run_down time none = refl
running-run_down time (some left) = refl

pub down_running : (t : Option ℕ) → is_down t ≡ true → running t ≡ true
down_running none h = h
down_running (some left) h = refl

running-CanHappen : (t : Option ℕ) → running t ≡ true → CanHappen t fired
running-CanHappen none h = cc
running-CanHappen (some left) h = tt

module _ {S : Type 0} (timer : S → Option ℕ) (set_timer : Option ℕ → S → S)
    (step : S → Round → Next S) where
  -- Two states that differ in the time that is left at most.
  abbrev pub Alike : S → S → Type 0
  Alike s s' = (set_timer none s ≡ set_timer none s') × (running (timer s) ≡ running (timer s'))

  abbrev pub NextAlike : Next S → Next S → Type 0
  NextAlike (goes_on s calls) (goes_on s' calls') = Alike s s' × (calls ≡ calls')
  NextAlike (stops s) (stops s') = Alike s s'
  NextAlike n n' = ⊥

  -- What comes of a timed loop is what a run in the rounds comes to, and the rounds can happen.
  abbrev pub SameAs : S × Calls → List Round → S → Type 0
  SameAs x rounds s' =
      (x.1 ≡ (run step s' rounds).1)
      × (AllCanHappen timer step s' rounds × Alike x.0 (run step s' rounds).0)

  next-SameAs :
      (n n' : Next S) (s' : S) (r : Round) (k : S → S × Calls) (rounds : S → List Round)
      → step s' r ≡ n'
      → NextAlike n n'
      → CanHappen (timer s') r
      → ((s1 s1' : S) → Alike s1 s1' → SameAs (k s1) (rounds s1) s1')
      → SameAs (and_then n k) (r ∷ rounds_then n rounds) s'
  next-SameAs (goes_on s1 calls) (goes_on s1' calls') s' r k rounds e (alike, same) can h =
      let (calls_same, (can_rest, end)) = h s1 s1' alike in
      rw (run_goes_on step s' s1' r calls' (rounds s1) e, e, same, calls_same)
        (refl, ((can, can_rest), end))
  next-SameAs (stops s1) (stops s1') s' r k rounds e alike can h =
      rw (run_stops step s' s1' r [] e, e) (refl, ((can, tt), alike))
  next-SameAs (goes_on s1 calls) (stops s1') s' r k rounds e alike can h = absurd alike
  next-SameAs (stops s1) (goes_on s1' calls') s' r k rounds e alike can h = absurd alike

  module _ (blind : (s s' : S) → Alike s s' → (r : Round) → NextAlike (step s r) (step s' r))
      (sets : (s : S) (t : Option ℕ)
        → running t ≡ running (timer s)
        → Alike (set_timer t s) s) where
    step-SameAs :
        (s s' : S) (r : Round) (k : S → S × Calls) (rounds : S → List Round)
        → Alike s s'
        → CanHappen (timer s') r
        → ((s1 s1' : S) → Alike s1 s1' → SameAs (k s1) (rounds s1) s1')
        → SameAs (and_then (step s r) k) (r ∷ rounds_then (step s r) rounds) s'
    step-SameAs s s' r k rounds alike can h =
        next-SameAs (step s r) (step s' r) s' r k rounds refl (blind s s' alike r) can h

    wake-SameAs :
        (s s' : S) (k : S → S × Calls) (rounds : S → List Round)
        → Alike s s'
        → ((s1 s1' : S) → Alike s1 s1' → SameAs (k s1) (rounds s1) s1')
        → SameAs
            (and_then (wake timer set_timer step s) k)
            (woken timer set_timer step s ++ rounds_then (wake timer set_timer step s) rounds)
            s'
    wake-SameAs s s' k rounds alike h = elim (Bool-cases (is_down (timer s))) [
      | inl e ↦ rw e (
          step-SameAs s s' fired k rounds alike
            (running-CanHappen (timer s') (sym alike.1 ∙ down_running (timer s) e)) h)
      | inr e ↦ rw e (h s s' alike)
    ]

    done-SameAs :
        (s s' : S)
        → Alike s s'
        → SameAs
            (and_then (step s done) (λ s1. (s1, [])))
            (done ∷ rounds_then (step s done) (λ s1. []))
            s'
    unfolding run
    done-SameAs s s' alike =
        step-SameAs s s' done (λ s1. (s1, [])) (λ s1. []) alike tt
          (λ s1 s1' alike1. (refl, (tt, alike1)))

    -- A query: the answer's round comes when its time has passed.
    asks-SameAs :
        (s s' : S) (took : ℕ) (answer : Answer) (k : S → S × Calls) (rounds : S → List Round)
        → Alike s s'
        → ((s1 s1' : S) → Alike s1 s1' → SameAs (k s1) (rounds s1) s1')
        → SameAs
            (and_then (asks timer set_timer step took answer s) k)
            (fetched answer ∷ rounds_then (asks timer set_timer step took answer s) rounds)
            s'
    asks-SameAs s s' took answer k rounds alike h =
        let t = run_down (time_of took answer) (timer s) in
        let (same, runs) = sets s t (running-run_down (time_of took answer) (timer s)) in
        step-SameAs (set_timer t s) s' (fetched answer) k rounds (same ∙ alike.0, runs ∙ alike.1) tt
          h

    pub timed-SameAs :
        (s s' : S) (turns : List Turn)
        → Alike s s'
        → SameAs (timed timer set_timer step s turns) (rounds_of timer set_timer step s turns) s'
    unfolding timed rounds_of run
    timed-SameAs s s' [] alike = (refl, (tt, alike))
    timed-SameAs s s' (cancelled true ∷ turns) alike =
        wake-SameAs s s' _ _ alike (λ s1 s1' alike1. done-SameAs s1 s1' alike1)
    timed-SameAs s s' (cancelled false ∷ turns) alike = done-SameAs s s' alike
    timed-SameAs s s' (query took answer ∷ turns) alike =
        wake-SameAs s s' _ _ alike (λ s1 s1' alike1.
          asks-SameAs s1 s1' took answer _ _ alike1
            (λ s2 s2' alike2. timed-SameAs s2 s2' turns alike2))
