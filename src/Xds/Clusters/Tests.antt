-- ===== src/Xds/Clusters/Tests.antt =====
-- One service behind two routes, and services that are passed over.
use flexds.Prelude.{pos, negsuc, List, ◌↔◌, ◌≡◌, refl, Bool, true, false, [], ◌∷◌}
use flexds.Results.Panics.{returns, panics}
use flexds.Strings.{codes}
use flexds.Common.ServiceModel.{RoutePattern, ServiceInstance}
use flexds.Xds.Resources.{LbEndpoint, Message, dns_cluster, tls_context}
use flexds.Xds.Samples.{path_route, web, idle}
use flexds.Xds.Clusters.{build, lb_endpoints}
use flexds.Xds.Clusters.Served.{built_of}
use flexds.Xds.Clusters.Marshalled.{build_exact}
use flexds.Xds.Clusters.Endpoints.{Dials, lb_endpoints_exact}

-- No DnsCluster can be marshalled.
abbrev no_dns : Message → Bool
no_dns (dns_cluster config) = false
no_dns _ = true

-- The endpoints of a service whose DNS configuration cannot be marshalled stay without a cluster.
orphan :
    build no_dns (web ∷ [])
    ≡ returns (record (built_of []) { endpoints = (built_of (web ∷ [])).endpoints })
unfolding build
orphan = refl

-- A port of -1, and an instance without an address.
abbrev odd_instances : List ServiceInstance
odd_instances =
    record { address = []; port = pos 80 } ∷ record { address = codes "db"; port = negsuc 0 } ∷ []

abbrev wrapped : List LbEndpoint
wrapped = record { address = record { address = codes "db"; port_value = 4294967295 } } ∷ []

lb_endpoints_exact_example : Dials odd_instances wrapped ↔ (wrapped ≡ lb_endpoints odd_instances)
lb_endpoints_exact_example = lb_endpoints_exact odd_instances wrapped

wrapped_port : wrapped ≡ lb_endpoints odd_instances
unfolding lb_endpoints
wrapped_port = refl

abbrev header_pattern : RoutePattern
header_pattern = record path_route {
  match_type = codes "header";
  header_name = codes "x-api";
  header_value = codes "2";
  regex_rewrite = codes "^/v2";
}

-- A TLS context cannot be marshalled, and the service asks for one.
abbrev no_tls : Message → Bool
no_tls (tls_context context) = false
no_tls _ = true

build_exact_example : build no_tls (idle ∷ web ∷ []) ≡ panics
build_exact_example = build_exact no_tls (idle ∷ web ∷ [])
