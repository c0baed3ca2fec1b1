-- ===== src/Discovery/Consul/Watcher/Batches.antt =====
-- What a run of the batching watcher relates: its calls, its batch, and the changes it has seen.
use flexds.Prelude.{
  ℕ, ◌+◌, ◌<◌, ◌≡◌, refl, ap, Bool, true, false, Option, none, some, List, [], ◌∷◌, ◌++◌, arith,
  eqb, ltb, leb, length, length-append, append-nil, append_assoc, if◌then◌else◌,
}
use flexds.Strings.{Text}
use flexds.Discovery.Consul.Watcher.{
  answered, fired, fetched, Calls, goes_on, prepend, BatchState, batch,
}
use flexds.Discovery.Consul.Watcher.Covers.{Covers, Covers-stop, Covers-change, Covers-fire}
use flexds.Discovery.Consul.Watcher.Loop.{running}

abbrev pub busy : BatchState → Bool
busy s = ltb 0 s.batch_count

abbrev pub timer_of : BatchState → Option ℕ
timer_of s = s.timer

-- Changes, in order, as groups of at most `size` of them, with a call for each group that has the
-- services of its last change, and behind the groups fewer than `size` changes that wait.
pub data Groups (size : ℕ) : Calls → Calls → ℕ → Type 0 where
  wait : (rest : Calls) → length rest < size → Groups size rest [] (length rest)
  call :
      {changes calls : Calls} {waiting : ℕ}
      → (group : Calls) (names : List Text) → length group < size
      → Groups size changes calls waiting
      → Groups size (group ++ names ∷ changes) (names ∷ calls) waiting

-- The changes that a batch stands for: as many as it counts, and the last has its services.
abbrev pub Stands : Calls → BatchState → Type 0
Stands held s =
    (length held ≡ s.batch_count)
    × (busy s ≡ true → (group : Calls) × (held ≡ group ++ s.services ∷ []))

module _ (size timeout : ℕ) where
  -- The timer runs exactly while changes are held, and they are fewer than a batch.
  pub record IsFilling (s : BatchState) : Type 0 where
    pub timed : running s.timer ≡ busy s
    pub room : s.batch_count < size

  abbrev pub same_batch : BatchState → ℕ → List Text → BatchState
  same_batch s index names = record {
    last_index = index;
    batch_count = s.batch_count + 1;
    services = names;
    timer = if eqb (s.batch_count + 1) 1 then some timeout else s.timer;
  }

  abbrev pub emptied : ℕ → List Text → BatchState
  emptied index names = record {
    last_index = index;
    batch_count = 0;
    services = names;
    timer = none;
  }

  pub batch_same :
      (s : BatchState) (index : ℕ) (names : List Text)
      → eqb index s.last_index ≡ true
      → batch size timeout s (fetched (answered index names)) ≡ goes_on s []
  unfolding batch
  batch_same s index names h = rw h

  pub batch_held :
      (s : BatchState) (index : ℕ) (names : List Text)
      → eqb index s.last_index ≡ false
      → leb size (s.batch_count + 1) ≡ false
      → batch size timeout s (fetched (answered index names))
        ≡ goes_on (same_batch s index names) []
  unfolding batch
  batch_held s index names h k = ground arith

  pub batch_full :
      (s : BatchState) (index : ℕ) (names : List Text)
      → eqb index s.last_index ≡ false
      → leb size (s.batch_count + 1) ≡ true
      → batch size timeout s (fetched (answered index names))
        ≡ goes_on (emptied index names) (names ∷ [])
  unfolding batch
  batch_full s index names h k = ground arith

  pub same_batch-IsFilling :
      (s : BatchState) (index : ℕ) (names : List Text)
      → IsFilling s
      → leb size (s.batch_count + 1) ≡ false
      → IsFilling (same_batch s index names)
  same_batch-IsFilling s index names f k = ground (arith, f)

  pub emptied-IsFilling :
      (index : ℕ) (names : List Text) → 0 < size → IsFilling (emptied index names)
  emptied-IsFilling index names h = record { timed = refl; room = h }

  pub batch_fired :
      (s : BatchState)
      → busy s ≡ true
      → batch size timeout s fired
        ≡ goes_on (record s { batch_count = 0; timer = none }) (s.services ∷ [])
  unfolding batch
  batch_fired s h = rw h

  -- A run from `s` thins out the changes, and each call stands for a group of them.
  pub record Batches (s : BatchState) (changes : Calls) (r : BatchState × Calls) : Type 0 where
    pub covers : Covers busy (busy s) s.services changes r
    pub grouped : (held : Calls) → Stands held s → Groups size (held ++ changes) r.1 r.0.batch_count

  pub Batches-stop :
      (s : BatchState) (timer : Option ℕ)
      → s.batch_count < size
      → Batches s [] (record s { timer = timer }, [])
  Batches-stop s timer room = record {
    covers = Covers-stop busy (busy s) s.services (record s { timer = timer }) refl;
    grouped = λ held h. rw (append-nil held, ← h.0) (Groups.wait held (omega (arith, h.0)));
  }

  pub Batches-held :
      (s : BatchState) (index : ℕ) (names : List Text) (changes : Calls) (r : BatchState × Calls)
      → Batches (same_batch s index names) changes r
      → Batches s (names ∷ changes) r
  Batches-held s index names changes r b =
      let grows : ltb 0 (s.batch_count + 1) ≡ true = ground arith in
      record {
        covers = Covers-change busy (busy s) s.services names changes r (rw grows at b.covers);
        grouped = λ held h. rw (← append_assoc held (names ∷ []) changes) (
            b.grouped (held ++ names ∷ [])
              (omega (arith, length-append held (names ∷ []), h.0), λ e. (held, refl)));
      }

  pub Batches-full :
      (s : BatchState) (index : ℕ) (names : List Text) (changes : Calls) (r : BatchState × Calls)
      → IsFilling s
      → Batches (emptied index names) changes r
      → Batches s (names ∷ changes) (prepend (names ∷ []) r)
  Batches-full s index names changes r f b = record {
    covers =
        Covers-change busy (busy s) s.services names changes (prepend (names ∷ []) r)
          (Covers-fire busy true names changes r refl b.covers);
    grouped = λ held h.
        Groups.call held names (omega (arith, h.0, f.room)) (b.grouped [] (refl, λ e. cc));
  }

  pub Batches-fire :
      (s : BatchState) (changes : Calls) (r : BatchState × Calls)
      → IsFilling s
      → busy s ≡ true
      → Batches (record s { batch_count = 0; timer = none }) changes r
      → Batches s changes (prepend (s.services ∷ []) r)
  Batches-fire s changes r f e b = record {
    covers = Covers-fire busy (busy s) s.services changes r e b.covers;
    grouped = λ held h.
        let (group, last) = h.1 e in
        rw (last, append_assoc group (s.services ∷ []) changes)
          (Groups.call group s.services
            (omega (arith, ap length last, length-append group (s.services ∷ []), h.0, f.room))
            (b.grouped [] (refl, λ e. cc)));
  }
