-- ===== src/Discovery/Marathon.antt =====
-- internal/discovery/marathon/marathon_loader.go: the conversion of Marathon's apps. The
-- request is in Marathon/Request and the polling in Marathon/Load.
pub mod Conversion
pub mod Routes
pub mod Request
pub mod Load
mod Tests
use flexds.Prelude.{
  ℕ, suc, ℤ, pos, Bool, true, false, not, ◌&&◌, ◌||◌, Option, none, some, List, [], ◌∷◌, ◌++◌, map,
  eqb, any, get_elem?, if◌then◌else◌,
}
use flexds.Results.Panics.{Run, returns, panics, ◌>>=◌}
use flexds.Strings.{Text, codes, ◌==◌, is_empty}
use flexds.Dict.{Dict, lookup, or_zero}
use flexds.Common.ServiceModel.{ServiceInstance, RoutePattern, DiscoveredService}

pub record PortDefinition : Type 0 where
  pub port : ℤ
  pub name : Text
  pub labels : Dict Text

pub record IpAddress : Type 0 where
  pub ip_address : Text
  pub protocol : Text

-- `alive` of each health check result
pub record Task : Type 0 where
  pub id : Text
  pub host : Text
  pub ip_addresses : List IpAddress
  pub ports : List ℤ
  pub health_check_results : List Bool
  pub state : Text

pub record App : Type 0 where
  pub id : Text
  pub ports : List ℤ
  pub port_definitions : List PortDefinition
  pub tasks : List Task
  pub labels : Dict Text

abbrev is_nil {ℓ} : {A : Type ℓ} → List A → Bool
is_nil [] = true
is_nil (_ ∷ _) = false

unfoldable pub is_healthy : Task → Bool
unfolding ◌==◌
is_healthy t =
    if not (t.state == codes "TASK_RUNNING") || is_nil t.health_check_results
    then false
    else any (λ alive. alive) t.health_check_results

address_from : List IpAddress → Text → Text
address_from [] host = host
address_from (ip ∷ ips) host =
    if ip.protocol == codes "IPv4" && not (is_empty ip.ip_address)
    then ip.ip_address
    else address_from ips host

unfoldable pub get_task_address : Task → Text
unfolding address_from ◌==◌
get_task_address t = address_from t.ip_addresses t.host

abbrev pub routing_key : Text → Option Text → Text
routing_key service_name none = service_name
routing_key service_name (some []) = service_name
routing_key service_name (some (c ∷ s)) = c ∷ s

abbrev prefix_route : Text → Text → RoutePattern
prefix_route service_name key = record {
  name = service_name ++ codes "-route-prefix";
  match_type = codes "path";
  path_prefix = b'/' ∷ key;
  header_name = [];
  header_value = [];
  prefix_rewrite = codes "/";
  regex_rewrite = [];
  regex_replacement = [];
  hosts = [];
}

abbrev header_route : Text → Text → RoutePattern
header_route service_name key = record {
  name = service_name ++ codes "-route-header";
  match_type = codes "header";
  path_prefix = [];
  header_name = codes "destination_service";
  header_value = key;
  prefix_rewrite = [];
  regex_rewrite = [];
  regex_replacement = [];
  hosts = [];
}

unfoldable pub build_routes : Text → Dict Text → List RoutePattern
unfolding lookup
build_routes service_name labels =
    let key = routing_key service_name (lookup (codes "routing_key") labels) in
    prefix_route service_name key ∷ header_route service_name key ∷ []

-- strings.NewReplacer("/", "_", "-", "_").Replace
unfoldable pub sanitize : Text → Text
sanitize = map (λ c. if eqb c b'/' || eqb c b'-' then b'_' else c)

-- `app.ID[1:]`
abbrev pub without_first : Text → Run Text
without_first [] = panics
without_first (c ∷ s) = returns s

abbrev in_range {ℓ} : {A : Type ℓ} → Option A → Run A
in_range none = panics
in_range (some a) = returns a

-- The loop over the healthy tasks; `task.Ports[portIndex]` panics out of range.
unfoldable pub instances_at : ℕ → List Task → Run (List ServiceInstance)
unfolding get_task_address
instances_at index [] = returns []
instances_at index (t ∷ tasks) = do
  port ← in_range (get_elem? t.ports index)
  rest ← instances_at index tasks
  returns (record { address = get_task_address t; port = port } ∷ rest)

abbrev service_name : Text → PortDefinition → Text
service_name id port_def = codes "mesos_" ++ (sanitize id ++ (b'_' ∷ port_def.name))

abbrev to_service : Text → PortDefinition → List ServiceInstance → DiscoveredService
to_service name port_def instances = record {
  name = name;
  enable_http2 =
      port_def.name == codes "grpc"
      || or_zero [] (lookup (codes "http2") port_def.labels) == codes "true";
  enable_tls = false;
  dns_refresh_rate = pos 0;
  instances = instances;
  routes = build_routes name port_def.labels;
}

-- The loop over the port definitions from `index` on.
unfoldable pub services_from :
    Text → List Task → ℕ → List PortDefinition → Run (List DiscoveredService)
unfolding sanitize instances_at build_routes ◌==◌ lookup
services_from id healthy index [] = returns []
services_from id healthy index (port_def ∷ defs) = do
  bare ← without_first id
  instances ← instances_at index healthy
  rest ← services_from id healthy (suc index) defs
  returns (to_service (service_name bare port_def) port_def instances ∷ rest)

unfoldable pub healthy_tasks : List Task → List Task
unfolding is_healthy
healthy_tasks [] = []
healthy_tasks (t ∷ tasks) = if is_healthy t then t ∷ healthy_tasks tasks else healthy_tasks tasks

abbrev app_services : App → List Task → Run (List DiscoveredService)
app_services app [] = returns []
app_services app (t ∷ tasks) = services_from app.id (t ∷ tasks) 0 app.port_definitions

-- convertToDiscoveredServices
unfoldable pub convert : List App → Run (List DiscoveredService)
unfolding services_from healthy_tasks
convert [] = returns []
convert (app ∷ apps) = do
  services ← app_services app (healthy_tasks app.tasks)
  rest ← convert apps
  returns (services ++ rest)
