-- ===== src/Xds/Clusters/Marshalled.antt =====
-- The loop over the services where some messages cannot be marshalled: when it panics, and what it
-- builds otherwise.
use flexds.Prelude.{
  ◌≡◌, refl, ◌∙◌, Bool, true, not, ◌&&◌, ◌||◌, List, [], ◌∷◌, map, append_assoc, append-nil, arith,
  if◌then◌else◌, Bool-cases, inl, inr,
}
use flexds.Results.Panics.{Run, returns, panics, ◌>>=◌}
use flexds.Common.ServiceModel.{DiscoveredService}
use flexds.Xds.Resources.{Message, explicit_http2, tls_context, dns_cluster}
use flexds.Xds.Clusters.{
  load_assignment, dns_config, tls_config, Built, is_served, build_cluster, build_service,
  build_from, build, add_cluster, add_endpoints,
}
use flexds.Xds.Clusters.Served.{cluster_of, served, routes_of, ◌⊕◌}

module _ (marshals : Message → Bool) where
  -- The DNS configuration of the service's cluster can be marshalled.
  abbrev pub has_dns : DiscoveredService → Bool
  has_dns svc = marshals (dns_cluster (dns_config svc))

  -- And so can what the cluster's extensions take.
  abbrev pub is_sound : DiscoveredService → Bool
  is_sound svc =
      (not svc.enable_http2 || marshals explicit_http2)
      && (not svc.enable_tls || marshals (tls_context (tls_config svc)))

  -- The services that get a cluster.
  abbrev pub clustered : List DiscoveredService → List DiscoveredService
  clustered [] = []
  clustered (svc ∷ services) = if has_dns svc then svc ∷ clustered services else clustered services

  abbrev pub all_sound : List DiscoveredService → Bool
  all_sound [] = true
  all_sound (svc ∷ services) = is_sound svc && all_sound services

  -- Load assignments for all the services; clusters and routes where there is a cluster.
  abbrev pub built_for : List DiscoveredService → Built
  built_for services = record {
    clusters = map cluster_of (clustered services);
    endpoints = map load_assignment services;
    routes = routes_of (clustered services);
  }

  build_cluster_exact :
      (svc : DiscoveredService)
      → build_cluster marshals svc ≡ (if is_sound svc then returns (cluster_of svc) else panics)
  unfolding build_cluster
  build_cluster_exact svc = ground arith

  build_service_exact :
      (svc : DiscoveredService) (b : Built)
      → build_service marshals svc b ≡ (
          if not (is_served svc)
          then returns b
          else if not (has_dns svc)
          then returns (add_endpoints svc b)
          else if is_sound svc
          then returns (add_cluster svc (cluster_of svc) (add_endpoints svc b))
          else panics)
  unfolding build_service
  build_service_exact svc b = rw (build_cluster_exact svc) (ground arith)

  abbrev result : Built → List DiscoveredService → Run Built
  result b services =
      if all_sound (clustered services) then returns (b ⊕ built_for services) else panics

  build_from_exact :
      (b : Built) (services : List DiscoveredService)
      → build_from marshals b services ≡ result b (served services)
  unfolding build_from
  build_from_exact b [] = simp append-nil
  build_from_exact b (svc ∷ services) = elim (Bool-cases (is_served svc)) [
    | inr e ↦ rw (build_service_exact svc b, e, ◌>>=◌) (build_from_exact b services)
    | inl e ↦ elim (Bool-cases (has_dns svc)) [
      | inr d ↦
          rw (build_service_exact svc b, e, d, ◌>>=◌)
            (build_from_exact (add_endpoints svc b) services ∙ simp append_assoc)
      | inl d ↦ elim (Bool-cases (is_sound svc)) [
        | inl k ↦
            rw (build_service_exact svc b, e, d, k, ◌>>=◌)
              (build_from_exact (add_cluster svc (cluster_of svc) (add_endpoints svc b)) services
                ∙ simp append_assoc)
        | inr k ↦ rw (build_service_exact svc b, e, d, k, ◌>>=◌) refl
      ]
    ]
  ]

  -- The loop panics exactly if the HTTP/2 options or the TLS context of a service cannot be
  -- marshalled which has an instance, a route and a DNS configuration that can be. Otherwise it
  -- appends, in the order of the services, a load assignment for each one with an instance and a
  -- route, and a cluster and the routes for those of them whose DNS configuration can be marshalled:
  -- where it cannot, there is a load assignment without a cluster.
  pub build_exact :
      (services : List DiscoveredService)
      → build marshals services ≡ (
          if all_sound (clustered (served services))
          then returns (built_for (served services))
          else panics)
  unfolding build
  build_exact services = build_from_exact _ services
