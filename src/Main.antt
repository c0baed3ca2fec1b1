-- ===== src/Main.antt =====
-- cmd/flexds/main.go: the validation of the flags, and the loaders that run before main waits for a
-- signal. (The gRPC server, the admin server and the Consul watcher run in goroutines of their own.)
pub mod Admin
pub mod Shutdown
pub mod Startup
pub mod Wiring
mod Tests
use flexds.Prelude.{
  ℕ, ℤ, pos, Bool, true, false, not, ◌&&◌, ◌||◌, Option, none, some, List, [], ◌∷◌, if◌then◌else◌,
}
use flexds.Results.{Result, ok, err}
use flexds.Results.Panics.{Run, returns, ◌>>=◌}
use flexds.Strings.{Text, codes, is_empty}
use flexds.Config.{Level, level_info}
use flexds.Xds.Resources.{Message}
use flexds.Xds.Cache.{SnapshotCache}
use flexds.Xds.SnapshotManager.{World}
use flexds.Discovery.Aggregator.{ServiceMap, Aggregator, new_aggregator}
use flexds.Discovery.Yaml.{Service}
use flexds.Discovery.Yaml
use flexds.Discovery.Marathon.Request.{LoadError, Config}
use flexds.Discovery.Marathon.Load.{Round, Outcome, returned, waits}
use flexds.Discovery.Marathon.Load

-- The flags after flag.Parse. The interval is in nanoseconds.
pub record Flags : Type 0 where
  pub ads_port : ℤ
  pub admin_port : ℤ
  pub log_level : Level
  pub consul_discovery : Bool
  pub consul_addr : Text
  pub watcher_strategy : Text
  pub yaml_discovery : Bool
  pub yaml_file : Text
  pub marathon_discovery : Bool
  pub marathon_addr : Text
  pub marathon_creds_path : Text
  pub marathon_poll_interval : ℤ
  pub listener_ports : List ℕ

abbrev pub default_flags : Flags
default_flags = record {
  ads_port = pos 18000;
  admin_port = pos 19005;
  log_level = level_info;
  consul_discovery = false;
  consul_addr = codes "http://localhost:8500";
  watcher_strategy = codes "immediate";
  yaml_discovery = false;
  yaml_file = [];
  marathon_discovery = false;
  marathon_addr = codes "http://localhost:8080";
  marathon_creds_path = [];
  marathon_poll_interval = pos 30_000_000_000;
  listener_ports = 18080 ∷ [];
}

pub data FlagError : Type 0 where
  no_discovery no_yaml_file no_marathon_addr : FlagError

unfoldable pub validate : Flags → Option FlagError
validate f =
    if not f.consul_discovery && (not f.yaml_discovery && not f.marathon_discovery)
    then some no_discovery
    else if f.yaml_discovery && is_empty f.yaml_file
    then some no_yaml_file
    else if f.marathon_discovery && is_empty f.marathon_addr
    then some no_marathon_addr
    else none

-- Where main stands: it has exited with code 1, Marathon's loop still runs, or it waits for a
-- signal.
pub data Stage (E : Type 0) : Type 0 where
  exited_flags : FlagError → Stage E
  exited_yaml : E → Stage E
  exited_marathon : LoadError E → Stage E
  polling : Stage E
  awaits_signal : Stage E

abbrev pub stage_of : {E : Type 0} {S : Type 0} → Aggregator S × Outcome E → Aggregator S × Stage E
stage_of (a, returned none) = (a, awaits_signal)
stage_of (a, returned (some e)) = (a, exited_marathon e)
stage_of (a, waits) = (a, polling)

module _ {E : Type 0} {S : Type 0} (cache : SnapshotCache S) (marshals : Message → Bool)
    (listener_ports : List ℕ) (range : ServiceMap → ServiceMap) (read_file : Text → Result E Text)
    (unmarshal : Text → Result E (List Service)) where
  unfoldable pub load_yaml : Flags → Aggregator S → Run (Aggregator S × Option E)
  unfolding Yaml.load_config
  load_yaml f a =
      if f.yaml_discovery
      then Yaml.load_config cache marshals listener_ports range read_file unmarshal f.yaml_file a
      else returns (a, none)

  -- The call of marathon.LoadConfig, in the rounds that its loop meets.
  unfoldable pub load_marathon :
      Flags → List (Round E) → Aggregator S → Run (Aggregator S × Stage E)
  unfolding Load.load_config
  load_marathon f rounds a =
      let config : Config = record {
        url = f.marathon_addr;
        credentials_file_path = f.marathon_creds_path;
      } in
      if f.marathon_discovery
      then (Load.load_config cache marshals listener_ports range config rounds a >>= λ r.
          returns (stage_of r))
      else returns (a, awaits_signal)

  unfoldable pub behind_yaml :
      Flags → List (Round E) → Aggregator S × Option E → Run (Aggregator S × Stage E)
  unfolding load_marathon
  behind_yaml f rounds (a, some e) = returns (a, exited_yaml e)
  behind_yaml f rounds (a, none) = load_marathon f rounds a

  -- main from flag.Parse on, with the aggregator over the new snapshot manager.
  unfoldable pub start_up : Flags → List (Round E) → World S → Run (Aggregator S × Stage E)
  unfolding validate load_yaml behind_yaml
  start_up f rounds w = elim (validate f) [
    | some e ↦ returns (new_aggregator w, exited_flags e)
    | none ↦ do r ← load_yaml f (new_aggregator w); behind_yaml f rounds r
  ]
