-- ===== src/Discovery/Consul/Timed/Steady.antt =====
-- What the loops of DebounceWatcher and BatchWatcher have in common: a change that is held runs a
-- timer, and the timer hands it on. Once nothing changes for the timer's time, nothing is held.
use mathlib.Core.Path.{subst}
use flexds.Prelude.{
  ℕ, ◌+◌, ◌-◌, ◌≤◌, ◌≡◌, refl, sym, ◌∙◌, Bool, true, false, Option, none, List, [], ◌∷◌, ◌++◌,
  append_assoc, All, All-map, eqb, arith, Bool-cases, inl, inr,
}
use flexds.Strings.{Text}
use flexds.Discovery.Consul.Watcher.{
  Answer, failed, answered, Round, fired, fetched, Calls, Next, goes_on, prepend,
}
use flexds.Discovery.Consul.Watcher.Loop.{running}
use flexds.Discovery.Consul.Timed.{
  Turn, cancelled, query, time_of, run_down, is_down, wake, elapse, asks, timed,
}
use flexds.Discovery.Consul.Timed.Erased.{running-run_down, down_running}
use flexds.Discovery.Consul.Timed.Turns.{
  GoesOn, IsQuiet, duration, left_of, left-run_down, not_running,
}

module _ {S : Type 0} (timer : S → Option ℕ) (set_timer : Option ℕ → S → S)
    (step : S → Round → Next S) where
  -- `index` is that of the last answer, `busy` tells whether a change is held, and `limit` is the
  -- time that the timer is set to.
  pub record Steady : Type 0 where
    pub index : S → ℕ
    pub busy : S → Bool
    pub limit : ℕ
    pub set_on :
        (t : Option ℕ) (s : S)
        → (timer (set_timer t s) ≡ t)
          × (index (set_timer t s) ≡ index s)
          × (busy (set_timer t s) ≡ busy s)
    pub fired_on :
        (s : S)
        → busy s ≡ true
        → (s' : S) × (calls : Calls) × (step s fired ≡ goes_on s' calls)
          × (timer s' ≡ none)
          × (busy s' ≡ false)
          × (index s' ≡ index s)
    pub failed_on : (s : S) → step s (fetched (failed false)) ≡ goes_on s []
    pub same_on :
        (s : S) (i : ℕ) (names : List Text)
        → eqb i (index s) ≡ true
        → step s (fetched (answered i names)) ≡ goes_on s []
    pub changed_on :
        (s : S) (i : ℕ) (names : List Text)
        → eqb i (index s) ≡ false
        → running (timer s) ≡ busy s
        → left_of (timer s) ≤ limit
        → (s' : S) × (calls : Calls) × (step s (fetched (answered i names)) ≡ goes_on s' calls)
          × (running (timer s') ≡ busy s')
          × (left_of (timer s') ≤ limit)

  abbrev loop : S → List Turn → S × Calls
  loop = timed timer set_timer step

  abbrev later : ℕ → S → S
  later = elapse timer set_timer step

  module _ (w : Steady) where
    -- The timer runs exactly while a change is held.
    pub record Fits (s : S) : Type 0 where
      pub timed : running (timer s) ≡ w.busy s
      pub below : left_of (timer s) ≤ w.limit

    later-Fits : (time : ℕ) (s : S) → Fits s → Fits (later time s)
    later-Fits time s h =
        let t = run_down time (timer s) in
        let (set, same, kept) = w.set_on t s in
        let l = left-run_down time (timer s) in
        let b = h.below in
        record {
          timed = rw (set, kept) (running-run_down time (timer s) ∙ h.timed);
          below = rw set (omega arith);
        }

    -- The select in front of a query, which takes the timer's channel if the timer has run down.
    wakes :
        (s : S)
        → Fits s
        → (s1 : S) × (calls : Calls) × (wake timer set_timer step s ≡ goes_on s1 calls)
          × Fits s1
          × (w.index s1 ≡ w.index s)
          × (left_of (timer s1) ≤ left_of (timer s))
          × (left_of (timer s) ≡ 0 → w.busy s1 ≡ false)
    wakes s h = elim (Bool-cases (is_down (timer s))) [
      | inl e ↦
          let (s1, calls, fires, off, free, same) =
            w.fired_on s (sym h.timed ∙ down_running (timer s) e) in
          (
            s1,
            calls,
            rw e fires,
            record { timed = rw (off, free) refl; below = rw off (omega arith) },
            same,
            rw off (omega arith),
            λ z. free,
          )
      | inr e ↦
          (s, [], rw e refl, h, refl, omega arith, λ z. sym h.timed ∙ not_running (timer s) e z)
    ]

    -- A turn of the loop that goes on.
    abbrev Turned : S → Turn → S → Type 0
    Turned s turn s' =
        (calls : Calls) × ((turns : List Turn)
          → loop s (turn ∷ turns) ≡ prepend calls (loop s' turns))

    asked-Turned :
        (s s1 s2 : S) (calls calls2 : Calls) (took : ℕ) (answer : Answer)
        → wake timer set_timer step s ≡ goes_on s1 calls
        → asks timer set_timer step took answer s1 ≡ goes_on s2 calls2
        → Turned s (query took answer) s2
    unfolding timed
    asked-Turned s s1 s2 calls calls2 took answer woke asked =
        (calls ++ calls2, λ turns. rw (woke, asked) (rw append_assoc refl))

    later_index : (time : ℕ) (s : S) → w.index (later time s) ≡ w.index s
    later_index time s = (w.set_on (run_down time (timer s)) s).1

    quiet_asks :
        (s : S) (took : ℕ) (answer : Answer)
        → IsQuiet (w.index s) (query took answer)
        → asks timer set_timer step took answer s ≡ goes_on (later (time_of took answer) s) []
    quiet_asks s took (failed true) q = cc
    quiet_asks s took (failed false) q = w.failed_on (later (took + 1000) s)
    quiet_asks s took (answered i names) q =
        w.same_on (later took s) i names (rw (later_index took s) q)

    -- In a quiet turn the time passes, and a timer that has run down leaves nothing held.
    quiet-Turned :
        (s : S) (took : ℕ) (answer : Answer)
        → Fits s
        → IsQuiet (w.index s) (query took answer)
        → (s' : S) × Turned s (query took answer) s'
          × Fits s'
          × (w.index s' ≡ w.index s)
          × (left_of (timer s') ≤ left_of (timer s) - time_of took answer)
          × (left_of (timer s) ≡ 0 → w.busy s' ≡ false)
    quiet-Turned s took answer h q =
        let (s1, calls, woke, h1, same, less, over) = wakes s h in
        let time = time_of took answer in
        let (set, same2, kept) = w.set_on (run_down time (timer s1)) s1 in
        let l = left-run_down time (timer s1) in
        (
          later time s1,
          asked-Turned s s1 (later time s1) calls [] took answer woke
              (quiet_asks s1 took answer (subst (λ i. IsQuiet i (query took answer)) (sym same) q)),
          later-Fits time s1 h1,
          same2 ∙ same,
          rw set (omega arith),
          λ z. kept ∙ over z,
        )

    on-Turned : (s : S) (turn : Turn) → GoesOn turn → Fits s → (s' : S) × Turned s turn s' × Fits s'
    on-Turned s (cancelled timer_first) g h = absurd g
    on-Turned s (query took (failed c)) g h =
        let (s', turned, h', same, less, over) = quiet-Turned s took (failed c) h g in
        (s', turned, h')
    on-Turned s (query took (answered i names)) g h = elim (Bool-cases (eqb i (w.index s))) [
      | inl e ↦
          let (s', turned, h', same, less, over) = quiet-Turned s took (answered i names) h e in
          (s', turned, h')
      | inr e ↦
          let (s1, calls, woke, h1, same, less, over) = wakes s h in
          let h2 = later-Fits took s1 h1 in
          let (s2, calls2, asked, runs, below) =
            w.changed_on (later took s1) i names (rw (later_index took s1, same) e) h2.timed
              h2.below in
          (
            s2,
            asked-Turned s s1 s2 calls calls2 took (answered i names) woke asked,
            record { timed = runs; below = below },
          )
    ]

    -- Turns that go on, with more behind them.
    pub loop-append :
        (s : S) (turns more : List Turn)
        → All GoesOn turns
        → Fits s
        → Fits (loop s turns).0
          × (loop s (turns ++ more) ≡ prepend (loop s turns).1 (loop (loop s turns).0 more))
    unfolding timed
    loop-append s [] more g h = (h, refl)
    loop-append s (turn ∷ turns) more (g, gs) h =
        let (s1, (calls, goes), h1) = on-Turned s turn g h in
        let (fits, append) = loop-append s1 turns more gs h1 in
        rw (goes (turns ++ more), goes turns, append)
          (fits, rw (← append_assoc calls (loop s1 turns).1 (loop (loop s1 turns).0 more).1) refl)

    quiet-GoesOn : (index : ℕ) (turn : Turn) → IsQuiet index turn → GoesOn turn
    quiet-GoesOn index (cancelled timer_first) q = q
    quiet-GoesOn index (query took (failed c)) q = q
    quiet-GoesOn index (query took (answered i names)) q = tt

    quiet_down :
        (s : S) (quiet : List Turn)
        → All (IsQuiet (w.index s)) quiet
        → Fits s
        → left_of (timer s) ≤ duration quiet
        → (w.index (loop s quiet).0 ≡ w.index s) × (left_of (timer (loop s quiet).0) ≡ 0)
    unfolding timed
    quiet_down s [] q h below = (refl, omega arith)
    quiet_down s (cancelled timer_first ∷ quiet) (q, qs) h below = absurd q
    quiet_down s (query took answer ∷ quiet) (q, qs) h below =
        let (s1, (calls, goes), h1, same, less, over) = quiet-Turned s took answer h q in
        let (same2, zero) =
          quiet_down s1 quiet (subst (λ i. All (IsQuiet i) quiet) (sym same) qs) h1 (omega arith) in
        rw (goes quiet) (same2 ∙ same, zero)

    -- Behind turns in which the loop goes on, a quiet time of at least the limit and one more
    -- quiet turn: nothing is held.
    pub nothing_held :
        (s : S) (turns quiet : List Turn) (took : ℕ) (answer : Answer)
        → Fits s
        → All GoesOn turns
        → All (IsQuiet (w.index (loop s turns).0)) quiet
        → IsQuiet (w.index (loop s turns).0) (query took answer)
        → w.limit ≤ duration quiet
        → w.busy (loop s (turns ++ (quiet ++ query took answer ∷ []))).0 ≡ false
    unfolding timed
    nothing_held s turns quiet took answer fits g qs q long =
        let (h, first) = loop-append s turns (quiet ++ query took answer ∷ []) g fits in
        let s1 = (loop s turns).0 in
        let below = h.below in
        let (same, zero) = quiet_down s1 quiet qs h (omega arith) in
        let (h2, second) =
          loop-append s1 quiet (query took answer ∷ [])
            (All-map (quiet-GoesOn (w.index s1)) quiet qs) h in
        let s2 = (loop s1 quiet).0 in
        let (s3, (calls, goes), h3, same3, less, over) =
          quiet-Turned s2 took answer h2
            (subst (λ i. IsQuiet i (query took answer)) (sym same) q) in
        rw (first, second, goes []) (over zero)
