-- ===== src/Discovery/Consul/Timed/Rounds.antt =====
-- The rounds that a timed loop meets, as an immediate watcher would meet them.
use flexds.Prelude.{
  ℕ, ◌+◌, ◌≡◌, refl, sym, ◌∙◌, ap, true, false, Option, List, [], ◌∷◌, map, eqb, Bool-cases, inl,
  inr,
}
use flexds.Strings.{Text}
use flexds.Discovery.Consul.Watcher.{
  Answer, failed, answered, Round, done, fired, fetched, Calls, Next, goes_on, run, immediate,
}
use flexds.Discovery.Consul.Watcher.Loop.{changes_of, changes_same, changes_new}
use flexds.Discovery.Consul.Timed.{
  Turn, cancelled, query, is_down, rounds_then, elapse, asks, rounds_of,
}

-- The round of a loop without a timer.
abbrev pub round_of : Turn → Round
round_of (cancelled timer_first) = done
round_of (query took answer) = fetched answer

module _ {S : Type 0} (timer : S → Option ℕ) (set_timer : Option ℕ → S → S)
    (step : S → Round → Next S) where
  abbrev pub GoesOnBehind : S → Round → Type 0
  GoesOnBehind s r = (s' : S) × (calls : Calls) × (step s r ≡ goes_on s' calls)

  abbrev rounds : S → List Turn → List Round
  rounds = rounds_of timer set_timer step

  module _ (fires : (s : S) → GoesOnBehind s fired)
      (fails : (s : S) → GoesOnBehind s (fetched (failed false)))
      (answers : (s : S) (index : ℕ) (names : List Text)
        → GoesOnBehind s (fetched (answered index names))) where
    new_or_same :
        (last_index index : ℕ) (names : List Text) (rs rs' : List Round)
        → ((i : ℕ) → changes_of i rs ≡ changes_of i rs')
        → changes_of last_index (fetched (answered index names) ∷ rs)
          ≡ changes_of last_index (fetched (answered index names) ∷ rs')
    new_or_same last_index index names rs rs' h = elim (Bool-cases (eqb index last_index)) [
      | inl e ↦
          changes_same last_index index names rs e
          ∙ h last_index
          ∙ sym (changes_same last_index index names rs' e)
      | inr e ↦
          changes_new last_index index names rs e
          ∙ ap (λ calls. names ∷ calls) (h index)
          ∙ sym (changes_new last_index index names rs' e)
    ]

    abbrev behind : S → ℕ → Answer → List Turn → List Round
    behind s took answer turns =
        fetched answer
        ∷ rounds_then (asks timer set_timer step took answer s) (λ s2. rounds s2 turns)

    answer_same :
        (s : S) (last_index took : ℕ) (answer : Answer) (turns : List Turn)
        → ((s' : S) (i : ℕ) → changes_of i (rounds s' turns) ≡ changes_of i (map round_of turns))
        → changes_of last_index (behind s took answer turns)
          ≡ changes_of last_index (fetched answer ∷ map round_of turns)
    unfolding run immediate
    answer_same s last_index took (failed true) turns h = refl
    answer_same s last_index took (failed false) turns h =
        let (s', calls, e) = fails (elapse timer set_timer step (took + 1000) s) in
        rw e (h s' last_index)
    answer_same s last_index took (answered index names) turns h =
        let (s', calls, e) = answers (elapse timer set_timer step took s) index names in
        rw e (new_or_same last_index index names (rounds s' turns) (map round_of turns) (h s'))

    -- The timer does not change what an immediate watcher makes of the answers.
    pub rounds_same :
        (s : S) (last_index : ℕ) (turns : List Turn)
        → changes_of last_index (rounds s turns) ≡ changes_of last_index (map round_of turns)
    unfolding rounds_of run immediate
    rounds_same s last_index [] = refl
    rounds_same s last_index (cancelled true ∷ turns) = elim (Bool-cases (is_down (timer s))) [
      | inl e ↦ let (s', calls, on) = fires s in rw (e, on) refl
      | inr e ↦ rw e refl
    ]
    rounds_same s last_index (cancelled false ∷ turns) = refl
    rounds_same s last_index (query took answer ∷ turns) =
        let same = λ (s1 : S).
          answer_same s1 last_index took answer turns (λ s' i. rounds_same s' i turns) in
        elim (Bool-cases (is_down (timer s))) [
          | inl e ↦ let (s', calls, on) = fires s in rw (e, on) (same s')
          | inr e ↦ rw e (same s)
        ]
