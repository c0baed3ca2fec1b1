-- ===== src/Discovery/Yaml.antt =====
-- internal/discovery/yaml/yaml_loader.go: services from a file.
pub mod Loaded
mod Tests
use flexds.Prelude.{ℕ, suc, ℤ, Bool, Option, none, some, List, [], ◌∷◌, ◌++◌, map}
use flexds.Results.{Result, ok, err}
use flexds.Results.Panics.{Run, returns, ◌>>=◌}
use flexds.Strings.{Text, codes, itoa}
use flexds.Config.{to_duration}
use flexds.Common.ServiceModel.{ServiceInstance, RoutePattern, DiscoveredService, any_host}
use flexds.Xds.Resources.{Message}
use flexds.Xds.Cache.{SnapshotCache}
use flexds.Discovery.Aggregator.{ServiceMap, Aggregator, update_services}

pub record Route : Type 0 where
  pub match_type : Text
  pub path_prefix : Text
  pub prefix_rewrite : Text
  pub regex_rewrite : Text
  pub regex_replacement : Text
  pub header_name : Text
  pub header_value : Text
  pub http2 : Bool
  pub tls : Bool

pub record Instance : Type 0 where
  pub host : Text
  pub port : ℤ

pub record Service : Type 0 where
  pub name : Text
  pub instances : List Instance
  pub routes : List Route
  pub http2 : Bool
  pub tls : Bool
  pub dns_refresh_rate : ℤ

-- fmt.Sprintf("%s-route-%d", service.Name, routeNum)
unfoldable pub route_name : Text → ℕ → Text
unfolding itoa
route_name service route_num = service ++ codes "-route-" ++ itoa route_num

abbrev pub route_pattern : Text → ℕ → Route → RoutePattern
route_pattern service route_num route = record {
  name = route_name service route_num;
  match_type = route.match_type;
  path_prefix = route.path_prefix;
  header_name = route.header_name;
  header_value = route.header_value;
  prefix_rewrite = route.prefix_rewrite;
  regex_rewrite = route.regex_rewrite;
  regex_replacement = route.regex_replacement;
  hosts = any_host;
}

-- The loop of parseRoutes, from a route number on.
unfoldable pub routes_from : Text → ℕ → List Route → List RoutePattern
unfolding route_name
routes_from service route_num [] = []
routes_from service route_num (route ∷ routes) =
    route_pattern service route_num route ∷ routes_from service (suc route_num) routes

unfoldable pub parse_routes : Service → List RoutePattern
unfolding routes_from
parse_routes service = routes_from service.name 0 service.routes

abbrev pub to_instance : Instance → ServiceInstance
to_instance inst = record { address = inst.host; port = inst.port }

unfoldable pub to_service : Service → DiscoveredService
unfolding parse_routes
to_service svc = record {
  name = svc.name;
  enable_http2 = svc.http2;
  enable_tls = svc.tls;
  dns_refresh_rate = to_duration svc.dns_refresh_rate;
  instances = map to_instance svc.instances;
  routes = parse_routes svc;
}

-- `read_file` is os.ReadFile and `unmarshal` yaml.Unmarshal into a list of services. Either's error
-- is the one that LoadConfig returns.
abbrev unmarshalled :
    {E : Type 0} → (Text → Result E (List Service)) → Result E Text → Result E (List Service)
unmarshalled unmarshal (err e) = err e
unmarshalled unmarshal (ok raw_yaml) = unmarshal raw_yaml

abbrev pub contents :
    {E : Type 0}
    → (Text → Result E Text)
    → (Text → Result E (List Service))
    → Text
    → Result E (List Service)
contents read_file unmarshal config_path = unmarshalled unmarshal (read_file config_path)

module _ {E : Type 0} {S : Type 0} (cache : SnapshotCache S) (marshals : Message → Bool)
    (listener_ports : List ℕ) (range : ServiceMap → ServiceMap) where
  -- LoadConfig behind the file's contents, with the aggregator as it leaves it.
  unfoldable pub load_services :
      Result E (List Service) → Aggregator S → Run (Aggregator S × Option E)
  unfolding to_service update_services
  load_services (err e) a = returns (a, some e)
  load_services (ok services) a = do
    a' ←
        update_services cache marshals listener_ports range (codes "yaml_loader")
          (map to_service services) a
    returns (a', none)

  unfoldable pub load_config :
      (Text → Result E Text)
      → (Text → Result E (List Service))
      → Text
      → Aggregator S
      → Run (Aggregator S × Option E)
  unfolding load_services
  load_config read_file unmarshal config_path a =
      load_services (contents read_file unmarshal config_path) a
