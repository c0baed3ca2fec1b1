-- ===== src/Discovery/Marathon/Load.antt =====
-- internal/discovery/marathon/marathon_loader.go: what a load does with its apps, and the polling
-- loop.
pub mod Polling
pub mod Polled
mod Tests
use flexds.Prelude.{ℕ, Bool, Option, none, some, List, [], ◌∷◌}
use flexds.Results.{Result, ok, err}
use flexds.Results.Panics.{Run, returns, ◌>>=◌}
use flexds.Strings.{Text, codes}
use flexds.Xds.Resources.{Message}
use flexds.Xds.Cache.{SnapshotCache}
use flexds.Discovery.Aggregator.{ServiceMap, Aggregator, update_services}
use flexds.Discovery.Marathon.{App, convert}
use flexds.Discovery.Marathon.Request.{LoadError, Outside, Config, fetch}

-- A round of LoadConfig's loop: ctx.Done(), or the timer, with what that load meets.
pub data Round (E : Type 0) : Type 0 where
  done : Round E
  tick : Outside E → Round E

-- LoadConfig has returned its error, nil or not; or it waits for the next round.
pub data Outcome (E : Type 0) : Type 0 where
  returned : Option (LoadError E) → Outcome E
  waits : Outcome E

module _ {E : Type 0} {S : Type 0} (cache : SnapshotCache S) (marshals : Message → Bool)
    (listener_ports : List ℕ) (range : ServiceMap → ServiceMap) where
  -- The second part of loadConfig.
  unfoldable pub load_apps :
      Result (LoadError E) (List App) → Aggregator S → Run (Aggregator S × Option (LoadError E))
  unfolding convert update_services
  load_apps (err e) a = returns (a, some e)
  load_apps (ok apps) a = convert apps >>= λ services.
      update_services cache marshals listener_ports range (codes "marathon_loader") services a
      >>= λ a'. returns (a', none)

  unfoldable pub load_config :
      Config → List (Round E) → Aggregator S → Run (Aggregator S × Outcome E)
  unfolding load_apps fetch
  load_config config [] a = returns (a, waits)
  load_config config (done ∷ rounds) a = returns (a, returned none)
  load_config config (tick out ∷ rounds) a = load_apps (fetch out config) a >>= λ r. elim r.1 [
    | some e ↦ returns (r.0, returned (some e))
    | none ↦ load_config config rounds r.0
  ]
