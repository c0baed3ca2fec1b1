-- ===== src/Discovery/Consul/Timed/Waits.antt =====
-- BatchWatcher, with the times: how long a change can wait.
use flexds.Prelude.{
  ℕ, ◌+◌, ◌-◌, ◌≤◌, ◌<◌, ◌≡◌, refl, sym, ◌∙◌, ◌⊎◌, inl, inr, true, false, none, some, List, [], ◌∷◌,
  ◌++◌, All, length, length-append, eqb, leb, arith, if◌then◌else◌, Bool-cases,
}
use flexds.Strings.{Text}
use flexds.Discovery.Consul.Watcher.{
  Answer, failed, answered, Calls, goes_on, prepend, BatchState, batch,
}
use flexds.Discovery.Consul.Watcher.Loop.{running}
use flexds.Discovery.Consul.Watcher.Batches.{
  busy, timer_of, same_batch, emptied, batch_same, batch_held, batch_full, batch_fired,
}
use flexds.Discovery.Consul.Timed.{
  Turn, cancelled, query, time_of, run_down, is_down, elapse, asks, timed,
}
use flexds.Discovery.Consul.Timed.Erased.{running-run_down, down_running}
use flexds.Discovery.Consul.Timed.Batched.{set_timer, timed_batch}
use flexds.Discovery.Consul.Timed.Empties.{turns_behind}
use flexds.Discovery.Consul.Timed.Turns.{GoesOn, duration, left_of, left-run_down, over_down}

still_some : (calls more : Calls) → 1 ≤ length calls → 1 ≤ length (calls ++ more)
still_some calls more h = omega (arith, length-append calls more)

module _ (size timeout : ℕ) where
  abbrev loop : BatchState → List Turn → BatchState × Calls
  loop = timed timer_of set_timer (batch size timeout)

  abbrev later : ℕ → BatchState → BatchState
  later = elapse timer_of set_timer (batch size timeout)

  -- The timer runs exactly while a change waits, and for the timeout at most.
  record Fits (s : BatchState) : Type 0 where
    timed : running s.timer ≡ busy s
    below : left_of s.timer ≤ timeout

  later-Fits : (time : ℕ) (s : BatchState) → Fits s → Fits (later time s)
  later-Fits time s h = record {
    timed = running-run_down time s.timer ∙ h.timed;
    below = let l = left-run_down time s.timer in let b = h.below in omega arith;
  }

  -- A call has been made, or what waits goes on waiting, with less time left.
  abbrev Passes : ℕ → BatchState → BatchState → Calls → Type 0
  Passes time s s' calls =
      (1 ≤ length calls)
      ⊎ ((busy s ≡ true) → (busy s' ≡ true) × (left_of s'.timer ≡ left_of s.timer - time))

  abbrev Asked : BatchState → ℕ → Answer → Type 0
  Asked s took answer =
      (s' : BatchState) × (calls : Calls) × (asks timer_of set_timer (batch size timeout) took
          answer s
        ≡ goes_on s' calls)
      × Fits s'
      × Passes (time_of took answer) s s' calls

  keeps-Asked :
      (s : BatchState) (took : ℕ) (answer : Answer)
      → Fits s
      → asks timer_of set_timer (batch size timeout) took answer s
        ≡ goes_on (later (time_of took answer) s) []
      → Asked s took answer
  keeps-Asked s took answer h e = (
    later (time_of took answer) s,
    [],
    e,
    later-Fits (time_of took answer) s h,
    inr (λ b. (b, left-run_down (time_of took answer) s.timer)),
  )

  later_held-Fits :
      (s : BatchState) (time index : ℕ) (names : List Text)
      → Fits s
      → Fits (same_batch size timeout (later time s) index names)
  later_held-Fits s time index names h = elim (Bool-cases (eqb (s.batch_count + 1) 1)) [
    | inl one ↦ rw one (record { timed = ground arith; below = omega arith })
    | inr many ↦
        let f = later-Fits time s h in
        rw many (record { timed = f.timed ∙ ground arith; below = f.below })
  ]

  held_left :
      (s : BatchState) (time : ℕ)
      → busy s ≡ true
      → left_of (if eqb (s.batch_count + 1) 1 then some timeout else run_down time s.timer)
        ≡ left_of s.timer - time
  held_left s time b = ground (arith, left-run_down time s.timer)

  held-Asked :
      (s : BatchState) (took index : ℕ) (names : List Text)
      → Fits s
      → eqb index s.last_index ≡ false
      → leb size (s.batch_count + 1) ≡ false
      → Asked s took (answered index names)
  held-Asked s took index names h new room = (
    same_batch size timeout (later took s) index names,
    [],
    batch_held size timeout (later took s) index names new room,
    later_held-Fits s took index names h,
    inr (λ b. (ground arith, held_left s took b)),
  )

  answered-Asked :
      (s : BatchState) (took : ℕ) (answer : Answer)
      → GoesOn (query took answer)
      → Fits s
      → Asked s took answer
  unfolding batch
  answered-Asked s took (failed true) g h = cc
  answered-Asked s took (failed false) g h = keeps-Asked s took (failed false) h refl
  answered-Asked s took (answered index names) g h = elim (Bool-cases (eqb index s.last_index)) [
    | inl e ↦
        keeps-Asked s took (answered index names) h
          (batch_same size timeout (later took s) index names e)
    | inr e ↦ elim (Bool-cases (leb size (s.batch_count + 1))) [
      | inr room ↦ held-Asked s took index names h e room
      | inl full ↦ (
        emptied size timeout index names,
        names ∷ [],
        batch_full size timeout (later took s) index names e full,
        record { timed = refl; below = omega arith },
        inl (omega arith),
      )
    ]
  ]

  -- A turn of the loop that goes on: the state and the calls behind it.
  abbrev Turned : BatchState → ℕ → Answer → Type 0
  Turned s took answer =
      (s' : BatchState) × (calls : Calls) × ((turns : List Turn)
        → loop s (query took answer ∷ turns) ≡ prepend calls (loop s' turns))
      × Fits s'
      × Passes (time_of took answer) s s' calls
      × ((is_down s.timer ≡ false) ⊎ (1 ≤ length calls))

  query-Turned :
      (s : BatchState) (took : ℕ) (answer : Answer)
      → GoesOn (query took answer)
      → Fits s
      → Turned s took answer
  unfolding timed
  query-Turned s took answer g h = elim (Bool-cases (is_down s.timer)) [
    | inl e ↦
        let s1 : BatchState = record s { batch_count = 0; timer = none } in
        let (s2, calls, asked, fits, passes) =
          answered-Asked s1 took answer g (record { timed = refl; below = omega arith }) in
        (
          s2,
          s.services ∷ calls,
          λ turns.
              rw (e, batch_fired size timeout s (sym h.timed ∙ down_running s.timer e), asked) refl,
          fits,
          inl (omega arith),
          inr (omega arith),
        )
    | inr e ↦
        let (s2, calls, asked, fits, passes) = answered-Asked s took answer g h in
        (s2, calls, λ turns. rw (e, asked) refl, fits, passes, inl e)
  ]

  -- A change that waits is handed on in the turn behind the timeout at the latest.
  handed_on :
      (s : BatchState) (more : List Turn) (took : ℕ) (answer : Answer)
      → All GoesOn more
      → GoesOn (query took answer)
      → Fits s
      → busy s ≡ true
      → left_of s.timer ≤ duration more
      → 1 ≤ length (loop s (more ++ query took answer ∷ [])).1
  handed_on s [] took answer gs g h b below =
      let (s1, calls, goes, fits, passes, made) = query-Turned s took answer g h in
      rw (goes []) (elim made [
        | inl up ↦ absurd (let down = over_down s.timer (h.timed ∙ b) below in cc)
        | inr now ↦ still_some calls (loop s1 []).1 now
      ])
  handed_on s (cancelled timer_first ∷ more) took answer (g1, gs) g h b below = absurd g1
  handed_on s (query t a ∷ more) took answer (g1, gs) g h b below =
      let (s1, calls, goes, fits, passes, made) = query-Turned s t a g1 h in
      let l = length-append calls (loop s1 (more ++ query took answer ∷ [])).1 in
      rw (goes (more ++ query took answer ∷ [])) (elim passes [
        | inl now ↦ omega arith
        | inr on ↦
            let (b1, left) = on b in
            let later_on = handed_on s1 more took answer gs g fits b1 (omega arith) in omega arith
      ])

  -- The loop goes on through any turns, at whose end a change waits in the batch, then through more
  -- that take at least the timeout, and one turn more: the batching watcher has called its handler
  -- again, whatever changes come meanwhile.
  pub timed_batch_hands_on :
      (turns more : List Turn) (took : ℕ) (answer : Answer)
      → All GoesOn turns
      → All GoesOn more
      → GoesOn (query took answer)
      → 0 < (timed_batch size timeout turns).0.batch_count
      → timeout ≤ duration more
      → length (timed_batch size timeout turns).1
        < length (timed_batch size timeout (turns ++ (more ++ query took answer ∷ []))).1
  timed_batch_hands_on turns more took answer gs ms g waits long =
      let (runs, below, append) =
        turns_behind size timeout turns (more ++ query took answer ∷ []) gs in
      let s = timed_batch size timeout turns in
      let on =
        handed_on s.0 more took answer ms g (record { timed = runs; below = below })
          (ground (arith, waits)) (omega arith) in
      let l = length-append s.1 (loop s.0 (more ++ query took answer ∷ [])).1 in
      rw append (omega arith)
