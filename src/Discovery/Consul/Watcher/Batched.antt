-- ===== src/Discovery/Consul/Watcher/Batched.antt =====
-- The batching watcher against the immediate one, which hands on every change.
use mathlib.Core.List.{Sublistᴰ}
use flexds.Prelude.{
  ℕ, ◌+◌, ◌<◌, ◌≡◌, refl, sym, ◌∙◌, true, false, none, List, [], ◌∷◌, arith, eqb, leb, Bool-cases,
  inl, inr,
}
use flexds.Strings.{Text}
use flexds.Discovery.Consul.Watcher.{
  failed, answered, Round, done, fired, fetched, run, immediate, BatchState, batch_start, batch,
  batch_watcher, immediate_watcher, watch,
}
use flexds.Discovery.Consul.Watcher.Loop.{
  CanHappen, AllCanHappen, After, last_or, fired_running, run_goes_on, changes_of, changes_same,
  changes_new,
}
use flexds.Discovery.Consul.Watcher.Batches.{
  timer_of, IsFilling, same_batch, emptied, batch_same, batch_held, batch_full,
  same_batch-IsFilling, emptied-IsFilling, batch_fired, Batches, Batches-stop, Batches-held,
  Batches-full, Batches-fire, Groups,
}

module _ (size timeout : ℕ) where
  abbrev Happens : BatchState → List Round → Type 0
  Happens = AllCanHappen timer_of (batch size timeout)

  abbrev Batched : BatchState → List Round → Type 0
  Batched s rounds =
      Batches size timeout s (changes_of s.last_index rounds) (run (batch size timeout) s rounds)

  module _ (positive : 0 < size) where
    answered-Batched :
        (s : BatchState) (index : ℕ) (names : List Text) (rounds : List Round)
        → IsFilling size timeout s
        → After (λ s'. Happens s' rounds) (batch size timeout s (fetched (answered index names)))
        → (Happens s rounds → Batched s rounds)
        → (IsFilling size timeout (same_batch size timeout s index names)
            → Happens (same_batch size timeout s index names) rounds
            → Batched (same_batch size timeout s index names) rounds)
        → (Happens (emptied size timeout index names) rounds
            → Batched (emptied size timeout index names) rounds)
        → Batched s (fetched (answered index names) ∷ rounds)
    answered-Batched s index names rounds f h same held full =
        elim (Bool-cases (eqb index s.last_index)) [
          | inl e ↦
              let step = batch_same size timeout s index names e in
              rw
                (
                  run_goes_on (batch size timeout) s s _ [] rounds step,
                  changes_same s.last_index index names rounds e,
                )
                (same (rw step at h))
          | inr e ↦
              rw (changes_new s.last_index index names rounds e)
                (elim (Bool-cases (leb size (s.batch_count + 1))) [
                  | inl k ↦
                      let step = batch_full size timeout s index names e k in
                      rw
                        (run_goes_on (batch size timeout) s (emptied size timeout index names) _
                          (names ∷ []) rounds step)
                        (Batches-full size timeout s index names _ _ f (full (rw step at h)))
                  | inr k ↦
                      let step = batch_held size timeout s index names e k in
                      rw
                        (run_goes_on (batch size timeout) s (same_batch size timeout s index names)
                          _ [] rounds step)
                        (Batches-held size timeout s index names _ _ (
                          held (same_batch-IsFilling size timeout s index names f k)
                            (rw step at h)))
                ])
        ]

    fired-Batched :
        (s : BatchState) (rounds : List Round)
        → IsFilling size timeout s
        → CanHappen s.timer fired
        → After (λ s'. Happens s' rounds) (batch size timeout s fired)
        → (Happens (record s { batch_count = 0; timer = none }) rounds
            → Batched (record s { batch_count = 0; timer = none }) rounds)
        → Batched s (fired ∷ rounds)
    unfolding run immediate
    fired-Batched s rounds f can h rest =
        let e = sym f.timed ∙ fired_running s.timer can in
        let step = batch_fired size timeout s e in
        rw (run_goes_on (batch size timeout) s _ fired (s.services ∷ []) rounds step)
          (Batches-fire size timeout s _ _ f e (rest (rw step at h)))

    run-Batches :
        (s : BatchState) (rounds : List Round)
        → IsFilling size timeout s
        → Happens s rounds
        → Batched s rounds
    unfolding run batch immediate
    run-Batches s [] f h = Batches-stop size timeout s s.timer f.room
    run-Batches s (done ∷ rounds) f h = Batches-stop size timeout s none f.room
    run-Batches s (fired ∷ rounds) f (can, h) = fired-Batched s rounds f can h (
        run-Batches (record s { batch_count = 0; timer = none }) rounds
          (record { timed = refl; room = positive }))
    run-Batches s (fetched (failed true) ∷ rounds) f h = Batches-stop size timeout s none f.room
    run-Batches s (fetched (failed false) ∷ rounds) f (_, h) = run-Batches s rounds f h
    run-Batches s (fetched (answered index names) ∷ rounds) f (_, h) =
        answered-Batched s index names rounds f h (run-Batches s rounds f)
          (run-Batches (same_batch size timeout s index names) rounds)
          (run-Batches (emptied size timeout index names) rounds
            (emptied-IsFilling size timeout index names positive))

    start-Batches : (rounds : List Round) → Happens batch_start rounds → Batched batch_start rounds
    start-Batches rounds h =
        run-Batches batch_start rounds (record { timed = refl; room = positive }) h

    -- Where a batch has at least one change and the timer fires only while it runs: the calls of
    -- the batching watcher are some of the immediate watcher's, in their order, and none is made
    -- twice.
    pub watch-batch_thins :
        (rounds : List Round)
        → AllCanHappen timer_of (batch size timeout) batch_start rounds
        → Sublistᴰ (watch (batch_watcher size timeout) rounds) (watch immediate_watcher rounds)
    unfolding watch
    watch-batch_thins rounds h = (start-Batches rounds h).covers.thinned

    -- Where a batch has at least one change, the timer fires only while it runs, and no change
    -- waits at the end: the last call of the batching watcher has the same services as the last
    -- call of the immediate watcher.
    pub watch-batch_caught_up :
        (rounds : List Round) (d : List Text)
        → AllCanHappen timer_of (batch size timeout) batch_start rounds
        → (run (batch size timeout) batch_start rounds).0.batch_count ≡ 0
        → last_or d (watch (batch_watcher size timeout) rounds)
          ≡ last_or d (watch immediate_watcher rounds)
    unfolding watch
    watch-batch_caught_up rounds d h empty =
        (start-Batches rounds h).covers.caught_up (ground arith) d

    -- Where a batch has at least one change and the timer fires only while it runs: the changes that
    -- the immediate watcher hands on are, in order, groups of at most `size` changes, one for each
    -- call of the batching watcher, which has the services of its group's last change, and behind
    -- them fewer than `size` changes, as many as the batch still counts at the end.
    pub watch-batch_merges :
        (rounds : List Round)
        → AllCanHappen timer_of (batch size timeout) batch_start rounds
        → Groups size
            (watch immediate_watcher rounds)
            (watch (batch_watcher size timeout) rounds)
            (run (batch size timeout) batch_start rounds).0.batch_count
    unfolding watch
    watch-batch_merges rounds h = (start-Batches rounds h).grouped [] (refl, λ e. cc)
