-- ===== src/Main/Startup.antt =====
-- When main goes on, and how far.
use flexds.Prelude.{
  ℕ, ◌≡◌, ◌≢◌, ◌↔◌, ◌⊎◌, inl, inr, refl, Bool, true, false, Option, none, some, List, arith, All,
  Option-cases,
}
use flexds.Results.{Result}
use flexds.Results.Panics.{Run, returns, panics, ◌>>=◌}
use flexds.Strings.{Text, is_empty}
use flexds.Xds.Resources.{Message}
use flexds.Xds.Cache.{SnapshotCache}
use flexds.Xds.SnapshotManager.{World}
use flexds.Discovery.Aggregator.{ServiceMap, Aggregator, new_aggregator}
use flexds.Discovery.Yaml.{Service}
use flexds.Discovery.Marathon.Load.{Round, Outcome, returned, waits}
use flexds.Discovery.Marathon.Load.Polling.{IsTick, load_config_waits}
use flexds.Main.{
  Flags, validate, awaits_signal, stage_of, load_yaml, load_marathon, behind_yaml, start_up,
}

-- The flags are accepted exactly if some discovery is on, a file is named where YAML's is, and an
-- address where Marathon's is.
validate_iff :
    (f : Flags)
    → (validate f ≡ none) ↔ (
        ((f.consul_discovery ≡ true) ⊎ ((f.yaml_discovery ≡ true) ⊎ (f.marathon_discovery ≡ true)))
        × (((f.yaml_discovery ≡ false) ⊎ (is_empty f.yaml_file ≡ false))
            × ((f.marathon_discovery ≡ false) ⊎ (is_empty f.marathon_addr ≡ false))))
unfolding validate
validate_iff f = ground arith

module _ {E : Type 0} {S : Type 0} (cache : SnapshotCache S) (marshals : Message → Bool)
    (listener_ports : List ℕ) (range : ServiceMap → ServiceMap) (read_file : Text → Result E Text)
    (unmarshal : Text → Result E (List Service)) where
  stage_of_waits :
      (m : Run (Aggregator S × Outcome E)) (a : Aggregator S)
      → ((b : Aggregator S) → m ≢ returns (b, returned none))
      → (m >>= λ r. returns (stage_of r)) ≢ returns (a, awaits_signal)
  stage_of_waits panics a h = λ k. cc
  stage_of_waits (returns (b, returned none)) a h = λ k. h b refl
  stage_of_waits (returns (b, returned (some e))) a h = λ k. cc
  stage_of_waits (returns (b, waits)) a h = λ k. cc

  load_marathon_waits :
      (f : Flags) (rounds : List (Round E)) (a b : Aggregator S)
      → f.marathon_discovery ≡ true
      → All IsTick rounds
      → load_marathon cache marshals listener_ports range read_file unmarshal f rounds a
        ≢ returns (b, awaits_signal)
  unfolding load_marathon
  load_marathon_waits f rounds a b on ticks = rw on (
      stage_of_waits _ b
        (λ c. load_config_waits cache marshals listener_ports range _ rounds a c ticks))

  behind_yaml_waits :
      (f : Flags) (rounds : List (Round E)) (m : Run (Aggregator S × Option E)) (b : Aggregator S)
      → f.marathon_discovery ≡ true
      → All IsTick rounds
      → (m >>= behind_yaml cache marshals listener_ports range read_file unmarshal f rounds)
        ≢ returns (b, awaits_signal)
  unfolding behind_yaml
  behind_yaml_waits f rounds panics b on ticks = λ k. cc
  behind_yaml_waits f rounds (returns (a, some e)) b on ticks = λ k. cc
  behind_yaml_waits f rounds (returns (a, none)) b on ticks =
      load_marathon_waits f rounds a b on ticks

  -- With Marathon discovery on, main does not come to wait for a signal while its context is not
  -- cancelled. (It cancels the context itself, behind that wait.)
  pub start_up_marathon :
      (f : Flags) (rounds : List (Round E)) (w : World S) (b : Aggregator S)
      → f.marathon_discovery ≡ true
      → All IsTick rounds
      → start_up cache marshals listener_ports range read_file unmarshal f rounds w
        ≢ returns (b, awaits_signal)
  unfolding start_up
  start_up_marathon f rounds w b on ticks = elim (Option-cases (validate f)) [
    | inr (e, v) ↦ rw (start_up, v) (λ k. cc)
    | inl v ↦
        rw (start_up, v)
          (behind_yaml_waits f rounds
            (load_yaml cache marshals listener_ports range read_file unmarshal f (new_aggregator w))
            b on ticks)
  ]
