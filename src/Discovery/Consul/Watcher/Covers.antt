-- ===== src/Discovery/Consul/Watcher/Covers.antt =====
-- What a strategy that merges changes promises, against the list of all changes.
use mathlib.Core.List.{Sublistᴰ}
use flexds.Prelude.{◌≡◌, refl, Bool, true, false, List, [], ◌∷◌, ◌++◌}
use flexds.Strings.{Text}
use flexds.Discovery.Consul.Watcher.{Calls, prepend}
use flexds.Discovery.Consul.Watcher.Loop.{last_or}

-- The change that is still to be handed on, if there is one.
abbrev pub held : Bool → List Text → Calls
held true names = names ∷ []
held false names = []

-- How the calls of a run relate to the changes from its start on, with what was held then. `busy`
-- tells of a state whether a change is held in it.
pub record Covers {S : Type 0} (busy : S → Bool) (pending : Bool) (latest : List Text)
    (changes : Calls) (r : S × Calls) : Type 0 where
  pub thinned : Sublistᴰ r.1 (held pending latest ++ changes)
  pub caught_up :
      busy r.0 ≡ false
      → (d : List Text) → last_or d r.1 ≡ last_or d (held pending latest ++ changes)

nil_sub : {A : Type 0} (xs : List A) → Sublistᴰ [] xs
nil_sub [] = Sublistᴰ.slnil
nil_sub (x ∷ xs) = Sublistᴰ.cons (nil_sub xs)

module _ {S : Type 0} (busy : S → Bool) where
  -- The loop stops, or the rounds end.
  pub Covers-stop :
      (pending : Bool) (latest : List Text) (s : S)
      → busy s ≡ pending
      → Covers busy pending latest [] (s, [])
  Covers-stop true latest s e = record { thinned = nil_sub _; caught_up = λ p. cc }
  Covers-stop false latest s e = record { thinned = nil_sub _; caught_up = λ p d. refl }

  -- A change takes the place of what was held.
  pub Covers-change :
      (pending : Bool) (latest names : List Text) (changes : Calls) (r : S × Calls)
      → Covers busy true names changes r
      → Covers busy pending latest (names ∷ changes) r
  Covers-change true latest names changes r c = record {
    thinned = Sublistᴰ.cons c.thinned;
    caught_up = λ p d. c.caught_up p d;
  }
  Covers-change false latest names changes r c = record {
    thinned = c.thinned;
    caught_up = c.caught_up;
  }

  -- The timer hands on what was held.
  pub Covers-fire :
      (pending : Bool) (latest : List Text) (changes : Calls) (r : S × Calls)
      → pending ≡ true
      → Covers busy false latest changes r
      → Covers busy pending latest changes (prepend (latest ∷ []) r)
  Covers-fire true latest changes r e c = record {
    thinned = Sublistᴰ.cons-cons refl c.thinned;
    caught_up = λ p d. c.caught_up p latest;
  }
  Covers-fire false latest changes r e c = cc
