-- ===== src/Xds/Clusters/Served.antt =====
-- The whole result of the loop over the services, where every message can be marshalled.
use flexds.Prelude.{
  ◌≡◌, ◌∙◌, Bool, true, none, some, List, [], ◌∷◌, ◌++◌, map, append_assoc, append-nil, arith,
  if◌then◌else◌, Bool-cases, inl, inr,
}
use flexds.Results.Panics.{returns, ◌>>=◌}
use flexds.Strings.{codes}
use flexds.Common.ServiceModel.{DiscoveredService}
use flexds.Xds.Resources.{Message, explicit_http2, tls_context, dns_cluster, Cluster, Route}
use flexds.Xds.Clusters.{
  plain_cluster, load_assignment, dns_config, tls_config, http_options_key, to_route, Built,
  is_served, build_cluster, build_service, build_from, build, add_cluster, add_endpoints,
}

-- The cluster of a service: HTTP/2 options if it asks for HTTP/2, a TLS socket if it asks for TLS.
abbrev pub cluster_of : DiscoveredService → Cluster
cluster_of svc = record (plain_cluster svc) {
  typed_extension_protocol_options =
      if svc.enable_http2 then (http_options_key, explicit_http2) ∷ [] else [];
  transport_socket =
      if svc.enable_tls
      then some (record {
        name = codes "envoy.transport_sockets.tls";
        typed_config = tls_context (tls_config svc);
      })
      else none;
}

-- The services with an instance and a route.
abbrev pub served : List DiscoveredService → List DiscoveredService
served [] = []
served (svc ∷ services) = if is_served svc then svc ∷ served services else served services

abbrev pub routes_of : List DiscoveredService → List Route
routes_of [] = []
routes_of (svc ∷ services) = map (to_route svc.name) svc.routes ++ routes_of services

abbrev pub built_of : List DiscoveredService → Built
built_of services = record {
  clusters = map cluster_of services;
  endpoints = map load_assignment services;
  routes = routes_of services;
}

infixl 60 ◌⊕◌
abbrev pub ◌⊕◌ : Built → Built → Built
a ⊕ b = record {
  clusters = a.clusters ++ b.clusters;
  endpoints = a.endpoints ++ b.endpoints;
  routes = a.routes ++ b.routes;
}

module _ (marshals : Message → Bool) (all_marshal : (m : Message) → marshals m ≡ true) where
  build_cluster-cluster_of :
      (svc : DiscoveredService) → build_cluster marshals svc ≡ returns (cluster_of svc)
  unfolding build_cluster
  build_cluster-cluster_of svc =
      ground (arith, all_marshal explicit_http2, all_marshal (tls_context (tls_config svc)))

  build_service_served :
      (svc : DiscoveredService) (b : Built)
      → build_service marshals svc b ≡ (
          if is_served svc
          then returns (add_cluster svc (cluster_of svc) (add_endpoints svc b))
          else returns b)
  unfolding build_service
  build_service_served svc b =
      rw (all_marshal (dns_cluster (dns_config svc)), build_cluster-cluster_of svc) (ground arith)

  build_from-served :
      (b : Built) (services : List DiscoveredService)
      → build_from marshals b services ≡ returns (b ⊕ built_of (served services))
  unfolding build_from
  build_from-served b [] = simp append-nil
  build_from-served b (svc ∷ services) = elim (Bool-cases (is_served svc)) [
    | inl e ↦
        rw (build_service_served svc b, e, ◌>>=◌)
          (build_from-served (add_cluster svc (cluster_of svc) (add_endpoints svc b)) services
            ∙ simp append_assoc)
    | inr e ↦ rw (build_service_served svc b, e, ◌>>=◌) (build_from-served b services)
  ]

  -- If every message can be marshalled, the loop does not panic. It appends one cluster and one
  -- load assignment for each service with an instance and a route, and the routes of those
  -- services, all in the order of the services.
  pub build_lem :
      (services : List DiscoveredService)
      → build marshals services ≡ returns (built_of (served services))
  unfolding build
  build_lem services = build_from-served _ services
