-- ===== src/Discovery/Consul/Watcher.antt =====
-- internal/discovery/consul/watcher: the three strategies. Each `Watch` is a loop; what it meets
-- in a round (the context, its timer, the answer of a blocking query) comes as a list of rounds,
-- and a run gives the state at the end with the calls of the handler, in order. The handler's
-- errors are only logged, so they change nothing here.
pub mod Loop
pub mod Covers
pub mod Debounced
pub mod Batches
pub mod Batched
pub mod Latest
mod Tests
use flexds.Prelude.{
  ℕ, zero, suc, ◌+◌, Bool, true, false, Option, none, some, List, [], ◌∷◌, ◌++◌, eqb, leb, ltb,
  if◌then◌else◌,
}
use flexds.Strings.{Text, codes, ◌==◌}

-- The answer of Catalog().Services: an error, with whether the context is cancelled by then, or
-- the index and the names of the services, in the order in which `range` meets them.
pub data Answer : Type 0 where
  failed : Bool → Answer
  answered : ℕ → List Text → Answer

-- What a round of the loop selects: ctx.Done(), the timer's channel, or the query.
pub data Round : Type 0 where
  done : Round
  fired : Round
  fetched : Answer → Round

abbrev pub Calls : Type 0
Calls = List (List Text)

-- How a round ends: the loop goes on, having made calls of the handler, or Watch returns nil.
pub data Next (S : Type 0) : Type 0 where
  goes_on : S → Calls → Next S
  stops : S → Next S

abbrev pub prepend : {S : Type 0} → Calls → S × Calls → S × Calls
prepend calls r = (r.0, calls ++ r.1)

-- The rounds of a loop, one after the other, until it returns or the list ends.
unfoldable pub run : {S : Type 0} → (S → Round → Next S) → S → List Round → S × Calls
run step s [] = (s, [])
run step s (r ∷ rounds) = elim (step s r) [
  | goes_on s' calls ↦ prepend calls (run step s' rounds)
  | stops s' ↦ (s', [])
]

-- ImmediateWatcher.Watch, whose state is `lastIndex`. It has no timer.
unfoldable pub immediate : ℕ → Round → Next ℕ
immediate last_index done = stops last_index
immediate last_index fired = goes_on last_index []
immediate last_index (fetched (failed true)) = stops last_index
immediate last_index (fetched (failed false)) = goes_on last_index []
immediate last_index (fetched (answered index names)) =
    if eqb index last_index then goes_on last_index [] else goes_on index (names ∷ [])

-- The variables of DebounceWatcher.Watch, and the duration that its timer runs for, if it runs.
pub record DebounceState : Type 0 where
  pub last_index : ℕ
  pub pending_update : Bool
  pub latest_services : List Text
  pub timer : Option ℕ

abbrev pub debounce_start : DebounceState
debounce_start = record {
  last_index = 0;
  pending_update = false;
  latest_services = [];
  timer = none;
}

unfoldable pub debounce : ℕ → DebounceState → Round → Next DebounceState
debounce interval s done = stops (record s { timer = none })
debounce interval s fired =
    goes_on (record s { pending_update = false; timer = none }) (s.latest_services ∷ [])
debounce interval s (fetched (failed true)) = stops (record s { timer = none })
debounce interval s (fetched (failed false)) = goes_on s []
debounce interval s (fetched (answered index names)) =
    if eqb index s.last_index
    then goes_on s []
    else let seen = record s { last_index = index; latest_services = names } in
      if s.pending_update
      then goes_on (record seen { timer = some interval }) []
      else goes_on (record seen { pending_update = true; timer = some interval }) []

-- The variables of BatchWatcher.Watch, and its timer.
pub record BatchState : Type 0 where
  pub last_index : ℕ
  pub batch_count : ℕ
  pub services : List Text
  pub timer : Option ℕ

abbrev pub batch_start : BatchState
batch_start = record { last_index = 0; batch_count = 0; services = []; timer = none }

unfoldable pub batch : ℕ → ℕ → BatchState → Round → Next BatchState
batch max_batch_size batch_timeout s done = stops (record s { timer = none })
batch max_batch_size batch_timeout s fired =
    if ltb 0 s.batch_count
    then goes_on (record s { batch_count = 0; timer = none }) (s.services ∷ [])
    else goes_on (record s { timer = none }) []
batch max_batch_size batch_timeout s (fetched (failed true)) = stops (record s { timer = none })
batch max_batch_size batch_timeout s (fetched (failed false)) = goes_on s []
batch max_batch_size batch_timeout s (fetched (answered index names)) =
    if eqb index s.last_index
    then goes_on s []
    else let count = s.batch_count + 1 in
      if leb max_batch_size count
      then goes_on (record { last_index = index; batch_count = 0; services = names; timer = none })
          (names ∷ [])
      else goes_on
          (record {
            last_index = index;
            batch_count = count;
            services = names;
            timer = if eqb count 1 then some batch_timeout else s.timer;
          })
          []

-- The watcher types, with what their constructors are given; times are in milliseconds.
pub data ConsulWatcher : Type 0 where
  immediate_watcher : ConsulWatcher
  debounce_watcher : ℕ → ConsulWatcher
  batch_watcher : ℕ → ℕ → ConsulWatcher

unfoldable pub new_watcher : Text → ConsulWatcher
unfolding ◌==◌
new_watcher strategy =
    if strategy == codes "debounce"
    then debounce_watcher 500
    else if strategy == codes "batch"
    then batch_watcher 5 1000
    else immediate_watcher

-- Watch, by the type of the watcher: the calls of the handler in the given rounds.
unfoldable pub watch : ConsulWatcher → List Round → Calls
unfolding run immediate debounce batch
watch immediate_watcher rounds = (run immediate 0 rounds).1
watch (debounce_watcher interval) rounds = (run (debounce interval) debounce_start rounds).1
watch (batch_watcher size timeout) rounds = (run (batch size timeout) batch_start rounds).1
