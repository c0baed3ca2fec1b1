-- ===== src/Xds/Server/Setup.antt =====
-- internal/xds/server.go: what RunGRPC sets up before it serves. The gRPC server is a library's: a
-- state `G` that is made with options, and in which services are registered.
use flexds.Prelude.{ℕ, ℤ, pos, negsuc, ◌+◌, Bool, true, List, [], ◌∷◌, ◌++◌}
use flexds.Results.{Result, ok, err}
use flexds.Results.Panics.{Run, returns, ◌>>=◌}
use flexds.Strings.{Text, codes, itoa}

-- keepalive.ServerParameters and EnforcementPolicy; times are in nanoseconds.
pub record ServerParameters : Type 0 where
  pub time : ℤ
  pub timeout : ℤ

pub record EnforcementPolicy : Type 0 where
  pub min_time : ℤ
  pub permit_without_stream : Bool

pub record ServerOptions : Type 0 where
  pub max_concurrent_streams : ℕ
  pub keepalive_params : ServerParameters
  pub keepalive_enforcement_policy : EnforcementPolicy

abbrev pub grpc_options : ServerOptions
grpc_options = record {
  max_concurrent_streams = 1_000_000;
  keepalive_params = record { time = pos 30_000_000_000; timeout = pos 5_000_000_000 };
  keepalive_enforcement_policy = record {
    min_time = pos 30_000_000_000;
    permit_without_stream = true;
  };
}

-- The services that the xDS server is registered for.
pub data DiscoveryService : Type 0 where
  aggregated clusters endpoints listeners routes : DiscoveryService

abbrev pub all_services : List DiscoveryService
all_services = aggregated ∷ clusters ∷ endpoints ∷ listeners ∷ routes ∷ []

-- fmt.Sprintf(":%d", port)
abbrev pub port_address : ℤ → Text
port_address (pos n) = codes ":" ++ itoa n
port_address (negsuc n) = codes ":-" ++ itoa (n + 1)

-- How far RunGRPC comes: net.Listen fails, and the process exits with code 1, or the server is ready
-- to serve on the listener `L`.
pub data SetUp (L G : Type 0) : Type 0 where
  exits : SetUp L G
  ready : L → G → SetUp L G

module _ {L E G : Type 0} (listen : Text → Text → Result E L) (new_server : ServerOptions → G)
    (register : DiscoveryService → G → Run G) where
  unfoldable pub register_all : List DiscoveryService → G → Run G
  register_all [] g = returns g
  register_all (s ∷ services) g = register s g >>= λ g'. register_all services g'

  unfoldable pub set_up : ℤ → Run (SetUp L G)
  unfolding register_all
  set_up port = elim (listen (codes "tcp") (port_address port)) [
    | err e ↦ returns exits
    | ok lis ↦ register_all all_services (new_server grpc_options) >>= λ g. returns (ready lis g)
  ]
