-- ===== src/Discovery/Consul/Timed/Empties.antt =====
-- BatchWatcher with the times, against ImmediateWatcher on the same answers: once nothing changes
-- for the timeout, the batch is empty.
use flexds.Prelude.{
  ℕ, ◌+◌, ◌≤◌, ◌<◌, ◌≡◌, refl, sym, ◌∙◌, ap, false, none, List, [], ◌∷◌, ◌++◌, map, All, eqb, leb,
  ltb, Bool-cases, inl, inr, arith,
}
use flexds.Strings.{Text}
use flexds.Discovery.Consul.Watcher.{
  Answer, answered, fired, prepend, fetched, BatchState, batch_start, batch, watch,
  immediate_watcher,
}
use flexds.Discovery.Consul.Watcher.Loop.{last_or, running}
use flexds.Discovery.Consul.Watcher.Batches.{
  timer_of, busy, same_batch, batch_same, batch_held, batch_full, batch_fired,
}
use flexds.Discovery.Consul.Watcher.Batched.{watch-batch_caught_up}
use flexds.Discovery.Consul.Timed.{Turn, query, timed}
use flexds.Discovery.Consul.Timed.Batched.{set_timer, timed_batch, batch_rounds, timed_batch_erased}
use flexds.Discovery.Consul.Timed.Turns.{GoesOn, IsQuiet, duration, left_of}
use flexds.Discovery.Consul.Timed.Steady.{Steady, Fits, loop-append, nothing_held}
use flexds.Discovery.Consul.Timed.Rounds.{GoesOnBehind, round_of, rounds_same}

module _ (size timeout : ℕ) where
  held-timer :
      (s : BatchState) (index : ℕ) (names : List Text)
      → running s.timer ≡ busy s
      → left_of s.timer ≤ timeout
      → let s' = same_batch size timeout s index names in
        (running s'.timer ≡ busy s') × (left_of s'.timer ≤ timeout)
  held-timer s index names runs below = ground arith

  steady : Steady timer_of set_timer (batch size timeout)
  unfolding batch
  steady = record {
    index = λ s. s.last_index;
    busy = busy;
    limit = timeout;
    set_on = λ t s. (refl, refl, refl);
    fired_on = λ s e. (_, _, batch_fired size timeout s e, refl, refl, refl);
    failed_on = λ s. refl;
    same_on = λ s i names e. batch_same size timeout s i names e;
    changed_on = λ s i names e runs below. elim (Bool-cases (leb size (s.batch_count + 1))) [
      | inl full ↦ (_, _, batch_full size timeout s i names e full, refl, omega arith)
      | inr room ↦
          let (runs', below') = held-timer s i names runs below in
          (_, _, batch_held size timeout s i names e room, runs', below')
    ];
  }

  fires : (s : BatchState) → GoesOnBehind timer_of set_timer (batch size timeout) s fired
  unfolding batch
  fires s = elim (Bool-cases (busy s)) [
    | inl e ↦ (_, _, batch_fired size timeout s e)
    | inr e ↦ (record s { timer = none }, [], rw e refl)
  ]

  answers :
      (s : BatchState) (index : ℕ) (names : List Text)
      → GoesOnBehind timer_of set_timer (batch size timeout) s (fetched (answered index names))
  answers s index names = elim (Bool-cases (eqb index s.last_index)) [
    | inl e ↦ (_, _, batch_same size timeout s index names e)
    | inr e ↦ elim (Bool-cases (leb size (s.batch_count + 1))) [
      | inl full ↦ (_, _, batch_full size timeout s index names e full)
      | inr room ↦ (_, _, batch_held size timeout s index names e room)
    ]
  ]

  start-Fits : Fits timer_of set_timer (batch size timeout) steady batch_start
  unfolding steady
  start-Fits = record { timed = refl; below = omega arith }

  -- Behind turns in which the loop goes on, the timer runs exactly while a change waits, and the
  -- loop goes through more turns from there.
  pub turns_behind :
      (turns more : List Turn)
      → All GoesOn turns
      → let (s, calls) = timed_batch size timeout turns in
        (running s.timer ≡ busy s)
        × (left_of s.timer ≤ timeout)
        × (timed_batch size timeout (turns ++ more)
            ≡ prepend calls (timed timer_of set_timer (batch size timeout) s more))
  unfolding steady
  turns_behind turns more g =
      let (fits, append) =
        loop-append timer_of set_timer (batch size timeout) steady batch_start turns more g
          start-Fits in
      (fits.timed, fits.below, append)

  -- A batch has at least one change, and the loop goes on through any turns. Then for at least the
  -- timeout, and one turn more, queries fail or answer with the index that was seen last. The last
  -- call of the batching watcher then has the services of the last call that the immediate watcher
  -- makes on the same answers: no change is lost.
  pub timed_batch_settles :
      (turns quiet : List Turn) (took : ℕ) (answer : Answer) (d : List Text)
      → 0 < size
      → All GoesOn turns
      → All (IsQuiet (timed_batch size timeout turns).0.last_index) quiet
      → IsQuiet (timed_batch size timeout turns).0.last_index (query took answer)
      → timeout ≤ duration quiet
      → let all = turns ++ (quiet ++ query took answer ∷ []) in
        last_or d (timed_batch size timeout all).1
        ≡ last_or d (watch immediate_watcher (map round_of all))
  unfolding watch batch steady
  timed_batch_settles turns quiet took answer d positive g qs q long =
      let all = turns ++ (quiet ++ query took answer ∷ []) in
      let (calls, (can, (same, runs))) = timed_batch_erased size timeout all in
      let over =
        nothing_held timer_of set_timer (batch size timeout) steady batch_start turns quiet took
          answer start-Fits g qs q long in
      ap (λ c. last_or d c) calls
      ∙ watch-batch_caught_up size timeout positive (batch_rounds size timeout all) d can
          (empty _ (ap (λ s. busy s) (sym same) ∙ over))
      ∙ ap (λ c. last_or d c)
          (rounds_same timer_of set_timer (batch size timeout) fires (λ s. (_, _, refl)) answers
            batch_start 0 all)
    where
      empty : (count : ℕ) → ltb 0 count ≡ false → count ≡ 0
      empty count e = ground arith
