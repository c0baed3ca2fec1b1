-- ===== src/Xds/Samples.antt =====
-- Data for the tests of internal/xds and of the loaders.
use flexds.Prelude.{pos, Bool, true, List, [], ◌∷◌}
use flexds.Strings.{codes}
use flexds.Common.Telemetry.{new_metrics}
use flexds.Common.ServiceModel.{ServiceInstance, RoutePattern, DiscoveredService, any_host}
use flexds.Xds.Resources.{Message}
use flexds.Xds.Cache.{MemoryState}
use flexds.Xds.SnapshotManager.{World}

abbrev pub path_route : RoutePattern
path_route = record {
  name = codes "web-route-1";
  match_type = codes "path";
  path_prefix = codes "/web";
  header_name = [];
  header_value = [];
  prefix_rewrite = codes "/";
  regex_rewrite = [];
  regex_replacement = [];
  hosts = any_host;
}

abbrev pub two_instances : List ServiceInstance
two_instances =
    record { address = codes "10.0.0.1"; port = pos 8080 }
    ∷ record { address = codes "10.0.0.2"; port = pos 65535 }
    ∷ []

abbrev pub web : DiscoveredService
web = record {
  name = codes "web";
  enable_http2 = true;
  enable_tls = true;
  dns_refresh_rate = pos 0;
  instances = two_instances;
  routes = path_route ∷ [];
}

abbrev pub idle : DiscoveredService
idle = record web { name = codes "idle"; instances = [] }

abbrev pub any_message : Message → Bool
any_message m = true

-- A cache that knows one node.
abbrev pub start : World MemoryState
start = record {
  version = 1;
  cache_state = record { snapshots = []; streams = codes "ingress" ∷ [] };
  metrics = new_metrics;
}
