-- ===== src/Discovery/Consul/Timed/Latest.antt =====
-- The names that Consul has answered last, read off the answers.
use flexds.Prelude.{
  ℕ, ◌≡◌, refl, ◌∙◌, ap, true, false, Option, none, some, List, [], ◌∷◌, map, eqb, if◌then◌else◌,
  Bool-cases, inl, inr, arith,
}
use flexds.Strings.{Text}
use flexds.Discovery.Consul.Watcher.{failed, answered, run, immediate}
use flexds.Discovery.Consul.Watcher.Loop.{last_or, changes_of, changes_same, changes_new}
use flexds.Discovery.Consul.Timed.{Turn, cancelled, query}
use flexds.Discovery.Consul.Timed.Rounds.{round_of}

-- The names of the last answer whose index was new, up to the end of the watch; `seen` if there is
-- none. `index` is that of the answer before.
abbrev pub last_change : ℕ → Option (List Text) → List Turn → Option (List Text)
last_change index seen [] = seen
last_change index seen (cancelled timer_first ∷ turns) = seen
last_change index seen (query took (failed true) ∷ turns) = seen
last_change index seen (query took (failed false) ∷ turns) = last_change index seen turns
last_change index seen (query took (answered i names) ∷ turns) =
    last_change i (if eqb i index then seen else some names) turns

abbrev or_names : List Text → Option (List Text) → List Text
or_names d none = d
or_names d (some names) = names

same_index : (i index : ℕ) → eqb i index ≡ true → i ≡ index
same_index i index h = ground arith

last_changes :
    (index : ℕ) (seen : Option (List Text)) (turns : List Turn) (d : List Text)
    → last_or (or_names d seen) (changes_of index (map round_of turns))
      ≡ or_names d (last_change index seen turns)
unfolding run immediate
last_changes index seen [] d = refl
last_changes index seen (cancelled timer_first ∷ turns) d = refl
last_changes index seen (query took (failed true) ∷ turns) d = refl
last_changes index seen (query took (failed false) ∷ turns) d = last_changes index seen turns d
last_changes index seen (query took (answered i names) ∷ turns) d =
    elim (Bool-cases (eqb i index)) [
      | inl e ↦
          ap (last_or (or_names d seen)) (changes_same index i names (map round_of turns) e)
          ∙ rw e (rw (same_index i index e) (last_changes index seen turns d))
      | inr e ↦
          ap (last_or (or_names d seen)) (changes_new index i names (map round_of turns) e)
          ∙ rw e (last_changes i (some names) turns d)
    ]

-- The last call of the immediate watcher has the names of the last change.
pub last-changes_of :
    (turns : List Turn) (names d : List Text)
    → last_change 0 none turns ≡ some names
    → last_or d (changes_of 0 (map round_of turns)) ≡ names
last-changes_of turns names d h = last_changes 0 none turns d ∙ ap (or_names d) h
