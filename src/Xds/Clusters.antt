-- ===== src/Xds/Clusters.antt =====
-- internal/xds/snapshot_manager.go, the loop over the services: clusters, endpoints and routes.
pub mod Marshalled
pub mod Served
pub mod Integrity
pub mod Endpoints
pub mod Matching
mod Tests
use flexds.Prelude.{
  ℕ, ℤ, pos, is_pos, to_u32, Bool, true, false, not, ◌&&◌, ◌||◌, Option, none, some, List, [], ◌∷◌,
  ◌++◌, map, if◌then◌else◌,
}
use flexds.Results.Panics.{Run, returns, panics, ◌>>=◌}
use flexds.Strings.{Text, codes, ◌==◌, is_empty}
use flexds.Dict.{Dict}
use flexds.Common.ServiceModel.{ServiceInstance, RoutePattern, DiscoveredService}
use flexds.Xds.Resources.{
  LbEndpoint, ClusterLoadAssignment, v4_only, DnsCluster, accept_untrusted, UpstreamTlsContext,
  Message, dns_cluster, explicit_http2, tls_context, TransportSocket, round_robin, Cluster,
  RegexMatchAndSubstitute, RouteAction, HeaderMatcher, RouteMatch, Route,
}

-- The loop over the instances; one without an address is passed over.
unfoldable pub lb_endpoints : List ServiceInstance → List LbEndpoint
unfolding to_u32
lb_endpoints [] = []
lb_endpoints (inst ∷ rest) =
    if is_empty inst.address
    then lb_endpoints rest
    else record { address = record { address = inst.address; port_value = to_u32 inst.port } }
      ∷ lb_endpoints rest

abbrev pub load_assignment : DiscoveredService → ClusterLoadAssignment
load_assignment svc = record {
  cluster_name = svc.name;
  endpoints = lb_endpoints svc.instances ∷ [];
}

abbrev pub dns_config : DiscoveredService → DnsCluster
dns_config svc = record {
  dns_lookup_family = v4_only;
  dns_refresh_rate = if is_pos svc.dns_refresh_rate then some svc.dns_refresh_rate else none;
  respect_dns_ttl = not (is_pos svc.dns_refresh_rate);
  all_addresses_in_single_endpoint = false;
}

abbrev pub alpn : Bool → List Text
alpn true = codes "h2" ∷ codes "http/1.1" ∷ []
alpn false = codes "http/1.1" ∷ []

abbrev pub tls_config : DiscoveredService → UpstreamTlsContext
tls_config svc = record {
  alpn_protocols = alpn svc.enable_http2;
  trust_chain_verification = accept_untrusted;
}

-- The cluster before the HTTP/2 and TLS options.
abbrev pub plain_cluster : DiscoveredService → Cluster
plain_cluster svc = record {
  name = svc.name;
  connect_timeout = pos 2_000_000_000;
  cluster_type_name = codes "envoy.clusters.dns";
  cluster_type_config = dns_cluster (dns_config svc);
  load_assignment = load_assignment svc;
  lb_policy = round_robin;
  typed_extension_protocol_options = [];
  transport_socket = none;
}

abbrev http_options_key : Text
http_options_key = codes "envoy.extensions.upstreams.http.v3.HttpProtocolOptions"

-- Whether the pattern's match type asks for a header, and both its name and value are there.
abbrev pub wants_header : RoutePattern → Bool
wants_header rp =
    (rp.match_type == codes "header" || rp.match_type == codes "both")
    && (not (is_empty rp.header_name) && not (is_empty rp.header_value))

abbrev rewritten : RoutePattern → RouteAction → RouteAction
rewritten rp ra =
    if not (is_empty rp.regex_rewrite)
    then record ra {
      regex_rewrite =
          some (record { regex = rp.regex_rewrite; substitution = rp.regex_replacement });
    }
    else if not (is_empty rp.prefix_rewrite)
    then record ra { prefix_rewrite = rp.prefix_rewrite }
    else ra

unfoldable pub to_route : Text → RoutePattern → Route
unfolding ◌==◌
to_route cluster_name rp = record {
  match = record {
    prefix = rp.path_prefix;
    headers =
        if wants_header rp
        then record { name = rp.header_name; exact = rp.header_value } ∷ []
        else [];
  };
  action =
      rewritten rp (record { cluster = cluster_name; regex_rewrite = none; prefix_rewrite = [] });
}

-- What the loop has appended to `clusters`, `endpoints` and `allRoutes`.
pub record Built : Type 0 where
  pub clusters : List Cluster
  pub endpoints : List ClusterLoadAssignment
  pub routes : List Route

abbrev pub is_nil {ℓ} : {A : Type ℓ} → List A → Bool
is_nil [] = true
is_nil (_ ∷ _) = false

abbrev pub is_served : DiscoveredService → Bool
is_served svc = not (is_nil svc.instances || is_nil svc.routes)

abbrev add_endpoints : DiscoveredService → Built → Built
add_endpoints svc b = record b { endpoints = b.endpoints ++ load_assignment svc ∷ [] }

abbrev add_cluster : DiscoveredService → Cluster → Built → Built
add_cluster svc cl b = record b {
  clusters = b.clusters ++ cl ∷ [];
  routes = b.routes ++ map (to_route svc.name) svc.routes;
}

-- `marshals m`: anypb.New(m) returns no error.
module _ (marshals : Message → Bool) where
  abbrev must_marshal : Message → Run Message
  must_marshal m = if marshals m then returns m else panics

  -- `if svc.EnableHTTP2 { … }`, which panics if the options cannot be marshalled
  abbrev with_http2 : DiscoveredService → Cluster → Run Cluster
  with_http2 svc cl =
      if svc.enable_http2
      then (must_marshal explicit_http2 >>= λ m.
          returns (record cl { typed_extension_protocol_options = (http_options_key, m) ∷ [] }))
      else returns cl

  -- `if svc.EnableTLS { … }`
  abbrev with_tls : DiscoveredService → Cluster → Run Cluster
  with_tls svc cl =
      if svc.enable_tls
      then (must_marshal (tls_context (tls_config svc)) >>= λ m. returns (record cl {
        transport_socket =
            some (record { name = codes "envoy.transport_sockets.tls"; typed_config = m });
      }))
      else returns cl

  unfoldable pub build_cluster : DiscoveredService → Run Cluster
  unfolding lb_endpoints
  build_cluster svc = do cl ← with_http2 svc (plain_cluster svc); with_tls svc cl

  -- One round. Where the DNS configuration cannot be marshalled, the round ends with the endpoints
  -- already appended.
  unfoldable pub build_service : DiscoveredService → Built → Run Built
  unfolding build_cluster to_route
  build_service svc b =
      if not (is_served svc)
      then returns b
      else if not (marshals (dns_cluster (dns_config svc)))
      then returns (add_endpoints svc b)
      else build_cluster svc >>= λ cl. returns (add_cluster svc cl (add_endpoints svc b))

  unfoldable pub build_from : Built → List DiscoveredService → Run Built
  unfolding build_service
  build_from b [] = returns b
  build_from b (svc ∷ services) = build_service svc b >>= λ b'. build_from b' services

  unfoldable pub build : List DiscoveredService → Run Built
  unfolding build_from
  build = build_from (record { clusters = []; endpoints = []; routes = [] })
