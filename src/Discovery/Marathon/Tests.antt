-- ===== src/Discovery/Marathon/Tests.antt =====
-- The conversion on two apps.
use flexds.Prelude.{pos, ◌≡◌, refl, true, false, List, [], ◌∷◌, map}
use flexds.Results.Panics.{Run, returns, panics, ◌>>=◌}
use flexds.Strings.{Text, codes, ◌==◌}
use flexds.Common.ServiceModel.{ServiceInstance, DiscoveredService}
use flexds.Discovery.Marathon.{PortDefinition, Task, App, convert, get_task_address}
use flexds.Discovery.Marathon.Conversion.{convert_lem}

abbrev web_task : Task
web_task = record {
  id = codes "web.1";
  host = codes "node-a";
  ip_addresses =
      record { ip_address = codes "fe80::1"; protocol = codes "IPv6" }
      ∷ record { ip_address = codes "10.0.0.1"; protocol = codes "IPv4" }
      ∷ [];
  ports = pos 31000 ∷ [];
  health_check_results = false ∷ true ∷ [];
  state = codes "TASK_RUNNING";
}

abbrev grpc_port : PortDefinition
grpc_port = record { port = pos 0; name = codes "grpc"; labels = [] }

abbrev web_app : App
web_app = record {
  id = codes "/team/web-ui";
  ports = [];
  port_definitions = grpc_port ∷ [];
  tasks = web_task ∷ record web_task { state = codes "TASK_STAGING" } ∷ [];
  labels = [];
}

abbrev short_app : App
short_app = record web_app { port_definitions = grpc_port ∷ grpc_port ∷ [] }

web_services : Run (List DiscoveredService)
web_services = convert (web_app ∷ [])

converts :
    (do
      services ← web_services
      returns (
          map {B = Text × List ServiceInstance}
            (λ (s : DiscoveredService). (s.name, s.instances))
            services))
    ≡ returns (
        (
          codes "mesos_team_web_ui_grpc",
          record { address = codes "10.0.0.1"; port = pos 31000 } ∷ [],
        )
        ∷ [])
unfolding web_services convert ◌==◌ get_task_address
converts = refl

-- A healthy task with fewer ports than the app's port definitions is an index out of range.
short_ports_panic : convert (short_app ∷ []) ≡ panics
unfolding convert ◌==◌
short_ports_panic = refl

convert_lem_example : convert (web_app ∷ short_app ∷ []) ≡ panics
unfolding ◌==◌ convert
convert_lem_example = convert_lem (web_app ∷ short_app ∷ [])
