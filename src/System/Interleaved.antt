-- ===== src/System/Interleaved.antt =====
-- The loaders' goroutines of Discovery/Aggregator/Interleaved together with OnStreamRequest of
-- internal/xds/server.go, which the xDS server calls in a goroutine for each stream. The callback
-- gets the reference snapshot and then sets it for its node: these are two steps, and anything may
-- come between them.
pub mod Whole
pub mod Phases
pub mod Picks
pub mod OneLoader
pub mod Stale
pub mod Versions
mod Tests
use flexds.Prelude.{ℕ, zero, suc, Bool, Option, none, some, List, [], ◌∷◌}
use flexds.Results.{Result, ok, err}
use flexds.Strings.{Text}
use flexds.Xds.Resources.{Message, Snapshot}
use flexds.Xds.Cache.{Error, SnapshotCache}
use flexds.Xds.SnapshotManager.{reference_key}
use flexds.Discovery.Aggregator.{ServiceMap, Aggregator}
use flexds.Discovery.Aggregator.Interleaved.{Thread, advance}

-- The callbacks that have got the reference snapshot and not yet set it, with their nodes.
abbrev pub Callbacks : Type 0
Callbacks = List (Text × Snapshot)

pub record State (S : Type 0) : Type 0 where
  pub aggregator : Aggregator S
  pub first : Thread
  pub second : Thread
  pub callbacks : Callbacks

-- Who moves next: one of the loaders' goroutines, a request of a node whose callback gets the
-- reference snapshot, or the callback at a position of the list.
pub data Turn : Type 0 where
  first_moves : Turn
  second_moves : Turn
  gets : Text → Turn
  sets : ℕ → Turn

abbrev pub Picked : Type 0
Picked = Option ((Text × Snapshot) × Callbacks)

abbrev pub behind : Text × Snapshot → Picked → Picked
behind c none = none
behind c (some (d, ds)) = some (d, c ∷ ds)

abbrev pub pick : ℕ → Callbacks → Picked
pick n [] = none
pick zero (c ∷ cs) = some (c, cs)
pick (suc n) (c ∷ cs) = behind c (pick n cs)

module _ {S : Type 0} (cache : SnapshotCache S) (marshals : Message → Bool)
    (listener_ports : List ℕ) (range : ServiceMap → ServiceMap) where
  -- GetSnapshot; a callback that gets none returns its error.
  unfoldable pub get_reference : Text → Result Error Snapshot → State S → State S
  get_reference node (err e) s = s
  get_reference node (ok snap) s = record s { callbacks = (node, snap) ∷ s.callbacks }

  -- SetSnapshot, of which only the error is returned.
  unfoldable pub set_own : Picked → State S → State S
  set_own none s = s
  set_own (some ((node, snap), rest)) s =
      let a = s.aggregator in
      let w = a.world in
      record s {
        aggregator = record a {
          world = record w { cache_state = (cache.set_snapshot node snap w.cache_state).0 };
        };
        callbacks = rest;
      }

  unfoldable pub take_turn : State S → Turn → State S
  unfolding get_reference set_own advance
  take_turn s first_moves =
      let r = advance cache marshals listener_ports range (s.aggregator, s.first) in
      record s { aggregator = r.0; first = r.1 }
  take_turn s second_moves =
      let r = advance cache marshals listener_ports range (s.aggregator, s.second) in
      record s { aggregator = r.0; second = r.1 }
  take_turn s (gets node) =
      get_reference node (cache.get_snapshot reference_key s.aggregator.world.cache_state) s
  take_turn s (sets n) = set_own (pick n s.callbacks) s

  unfoldable pub take_turns : State S → List Turn → State S
  unfolding take_turn
  take_turns s [] = s
  take_turns s (t ∷ turns) = take_turns (take_turn s t) turns
