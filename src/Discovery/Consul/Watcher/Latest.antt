-- ===== src/Discovery/Consul/Watcher/Latest.antt =====
-- The names of the last change, read off the rounds of a watch.
use flexds.Prelude.{
  ℕ, ◌≡◌, refl, ◌∙◌, ap, true, false, Option, none, some, List, [], ◌∷◌, eqb, if◌then◌else◌,
  Bool-cases, inl, inr, arith,
}
use flexds.Strings.{Text}
use flexds.Discovery.Consul.Watcher.{Round, done, fired, fetched, failed, answered, run, immediate}
use flexds.Discovery.Consul.Watcher.Loop.{last_or, changes_of, changes_same, changes_new}

-- The names of the last answer whose index was not that of the answer before, up to the end of the
-- watch; `seen` if there is none.
abbrev pub last_new : ℕ → Option (List Text) → List Round → Option (List Text)
last_new index seen [] = seen
last_new index seen (done ∷ rounds) = seen
last_new index seen (fired ∷ rounds) = last_new index seen rounds
last_new index seen (fetched (failed true) ∷ rounds) = seen
last_new index seen (fetched (failed false) ∷ rounds) = last_new index seen rounds
last_new index seen (fetched (answered i names) ∷ rounds) =
    last_new i (if eqb i index then seen else some names) rounds

abbrev or_names : List Text → Option (List Text) → List Text
or_names d none = d
or_names d (some names) = names

same_index : (i index : ℕ) → eqb i index ≡ true → i ≡ index
same_index i index h = ground arith

last_changes :
    (index : ℕ) (seen : Option (List Text)) (rounds : List Round) (d : List Text)
    → last_or (or_names d seen) (changes_of index rounds) ≡ or_names d (last_new index seen rounds)
unfolding run immediate
last_changes index seen [] d = refl
last_changes index seen (done ∷ rounds) d = refl
last_changes index seen (fired ∷ rounds) d = last_changes index seen rounds d
last_changes index seen (fetched (failed true) ∷ rounds) d = refl
last_changes index seen (fetched (failed false) ∷ rounds) d = last_changes index seen rounds d
last_changes index seen (fetched (answered i names) ∷ rounds) d = elim (Bool-cases (eqb i index)) [
  | inl e ↦
      ap (last_or (or_names d seen)) (changes_same index i names rounds e)
      ∙ rw e (rw (same_index i index e) (last_changes index seen rounds d))
  | inr e ↦
      ap (last_or (or_names d seen)) (changes_new index i names rounds e)
      ∙ rw e (last_changes i (some names) rounds d)
]

-- The last call of the immediate watcher has the names of the last change.
pub last-changes_of :
    (rounds : List Round) (names d : List Text)
    → last_new 0 none rounds ≡ some names
    → last_or d (changes_of 0 rounds) ≡ names
last-changes_of rounds names d h = last_changes 0 none rounds d ∙ ap (or_names d) h

-- Without a change there is no call.
pub changes_of-nil :
    (rounds : List Round) → last_new 0 none rounds ≡ none → changes_of 0 rounds ≡ []
changes_of-nil rounds h =
    no_call (changes_of 0 rounds) (λ d. last_changes 0 none rounds d ∙ ap (or_names d) h)
  where
    no_call : (calls : List (List Text)) → ((d : List Text) → last_or d calls ≡ d) → calls ≡ []
    no_call [] k = refl
    no_call (names ∷ calls) k = absurd (cc (k [], k ([] ∷ [])))
