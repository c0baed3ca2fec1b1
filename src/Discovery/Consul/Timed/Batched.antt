-- ===== src/Discovery/Consul/Timed/Batched.antt =====
-- BatchWatcher: with the times, its calls are those of a run over rounds that can happen.
use flexds.Prelude.{
  ℕ, ◌+◌, ◌≡◌, refl, sym, ◌∙◌, ap, Bool, true, false, Option, none, some, List, [], ◌∷◌, eqb, leb,
  if◌then◌else◌, Bool-cases, inl, inr,
}
use flexds.Strings.{Text}
use flexds.Discovery.Consul.Watcher.{
  failed, answered, Round, done, fired, fetched, Calls, BatchState, batch_start, batch,
  batch_watcher, watch, run,
}
use flexds.Discovery.Consul.Watcher.Loop.{AllCanHappen, running}
use flexds.Discovery.Consul.Watcher.Batches.{timer_of, busy, batch_same, batch_held, batch_full}
use flexds.Discovery.Consul.Timed.{Turn, timed, rounds_of}
use flexds.Discovery.Consul.Timed.Erased.{Alike, NextAlike, timed-SameAs}

abbrev pub set_timer : Option ℕ → BatchState → BatchState
set_timer t s = record s { timer = t }

-- BatchWatcher.Watch, with the times.
abbrev pub timed_batch : ℕ → ℕ → List Turn → BatchState × Calls
timed_batch size timeout = timed timer_of set_timer (batch size timeout) batch_start

-- The rounds that it meets.
abbrev pub batch_rounds : ℕ → ℕ → List Turn → List Round
batch_rounds size timeout = rounds_of timer_of set_timer (batch size timeout) batch_start

module _ (size timeout : ℕ) where
  abbrev SameBatch : BatchState → BatchState → Type 0
  SameBatch = Alike timer_of set_timer (batch size timeout)

  abbrev SameNext : BatchState → BatchState → Round → Type 0
  SameNext s s' r =
      NextAlike timer_of set_timer (batch size timeout) (batch size timeout s r)
        (batch size timeout s' r)

  reset_running :
      (b : Bool) (t t' : Option ℕ)
      → running t ≡ running t'
      → running (if b then some timeout else t) ≡ running (if b then some timeout else t')
  reset_running true t t' h = refl
  reset_running false t t' h = h

  fired_alike : (s s' : BatchState) → SameBatch s s' → SameNext s s' fired
  unfolding batch
  fired_alike s s' (same, runs) = elim (Bool-cases (busy s)) [
    | inl e ↦
        rw (e, busy_same ∙ e)
          (
            (ap {A = BatchState} (λ t. record t { batch_count = 0; timer = none }) same, refl),
            ap (λ t. t.services ∷ []) same,
          )
    | inr e ↦ rw (e, busy_same ∙ e) ((same, refl), refl)
  ]
    where
      busy_same : busy s' ≡ busy s
      busy_same = ap (λ t. busy t) (sym same)

  changed_alike :
      (s s' : BatchState) (index : ℕ) (names : List Text)
      → SameBatch s s'
      → eqb index s.last_index ≡ false
      → SameNext s s' (fetched (answered index names))
  changed_alike s s' index names (same, runs) e = elim (Bool-cases (leb size (s.batch_count + 1))) [
    | inl full ↦
        rw
          (
            batch_full size timeout s index names e full,
            batch_full size timeout s' index names (index_same ∙ e) (full_same ∙ full),
          )
          ((refl, refl), refl)
    | inr room ↦
        rw
          (
            batch_held size timeout s index names e room,
            batch_held size timeout s' index names (index_same ∙ e) (full_same ∙ room),
          )
          (
            (
              ap {A = BatchState}
                  (λ t. record {
                    last_index = index;
                    batch_count = t.batch_count + 1;
                    services = names;
                    timer = none;
                  })
                  same,
              rw count_same (reset_running (eqb (s.batch_count + 1) 1) s.timer s'.timer runs),
            ),
            refl,
          )
  ]
    where
      index_same : eqb index s'.last_index ≡ eqb index s.last_index
      index_same = ap (λ t. eqb index t.last_index) (sym same)

      full_same : leb size (s'.batch_count + 1) ≡ leb size (s.batch_count + 1)
      full_same = ap (λ t. leb size (t.batch_count + 1)) (sym same)

      count_same : s'.batch_count ≡ s.batch_count
      count_same = ap (λ t. t.batch_count) (sym same)

  batch_alike : (s s' : BatchState) → SameBatch s s' → (r : Round) → SameNext s s' r
  unfolding batch
  batch_alike s s' (same, runs) done = (same, refl)
  batch_alike s s' (same, runs) fired = fired_alike s s' (same, runs)
  batch_alike s s' (same, runs) (fetched (failed true)) = (same, refl)
  batch_alike s s' (same, runs) (fetched (failed false)) = ((same, runs), refl)
  batch_alike s s' (same, runs) (fetched (answered index names)) =
      elim (Bool-cases (eqb index s.last_index)) [
        | inl e ↦
            rw
              (
                batch_same size timeout s index names e,
                batch_same size timeout s' index names
                    (ap (λ t. eqb index t.last_index) (sym same) ∙ e),
              )
              ((same, runs), refl)
        | inr e ↦ changed_alike s s' index names (same, runs) e
      ]

  set_alike :
      (s : BatchState) (t : Option ℕ) → running t ≡ running s.timer → SameBatch (set_timer t s) s
  set_alike s t h = (refl, h)

  -- With the times: the calls of the batching watcher are those of a run over the rounds that it
  -- meets, in which the timer fires only while it runs.
  pub timed_batch_erased :
      (turns : List Turn)
      → ((timed_batch size timeout turns).1
          ≡ watch (batch_watcher size timeout) (batch_rounds size timeout turns))
        × (AllCanHappen timer_of (batch size timeout) batch_start (batch_rounds size timeout turns)
            × SameBatch
                (timed_batch size timeout turns).0
                (run (batch size timeout) batch_start (batch_rounds size timeout turns)).0)
  unfolding watch
  timed_batch_erased turns =
      timed-SameAs timer_of set_timer (batch size timeout) batch_alike set_alike batch_start
        batch_start turns (refl, refl)
