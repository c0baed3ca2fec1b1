-- ===== src/Xds/Clusters/Integrity.antt =====
-- References between what the loop over the services builds, whichever messages can be marshalled.
use mathlib.Core.List.Memᴰ
use mathlib.Core.List.{Memᴰ}
use flexds.Prelude.{
  ◌≡◌, refl, Bool, true, false, List, [], ◌∷◌, map, arith, All, All-append, All-map, All-of_map,
  Bool-cases, inl, inr,
}
use flexds.Results.Panics.{returns, bind-eq-returns}
use flexds.Strings.{Text}
use flexds.Common.ServiceModel.{RoutePattern, DiscoveredService}
use flexds.Xds.Resources.{ClusterLoadAssignment, Message, dns_cluster, Cluster, Route}
use flexds.Xds.Clusters.{
  load_assignment, dns_config, to_route, Built, is_served, add_endpoints, add_cluster,
  build_cluster, build_service, build_from, build,
}

-- Some cluster has the name.
abbrev pub HasCluster : List Cluster → Text → Type 0
HasCluster clusters name = (cl : Cluster) × Memᴰ cl clusters × (cl.name ≡ name)

-- The cluster's load assignment is listed and bears its name.
abbrev pub IsBacked : List ClusterLoadAssignment → Cluster → Type 0
IsBacked endpoints cl =
    Memᴰ cl.load_assignment endpoints × (cl.load_assignment.cluster_name ≡ cl.name)

pub record IsClosed (b : Built) : Type 0 where
  pub routed : All (λ (r : Route). HasCluster b.clusters r.action.cluster) b.routes
  pub backed : All (IsBacked b.endpoints) b.clusters

cluster-to_route : (name : Text) (rp : RoutePattern) → (to_route name rp).action.cluster ≡ name
unfolding to_route
cluster-to_route name rp = ground arith

module _ (marshals : Message → Bool) where
  build_cluster_keeps :
      (svc : DiscoveredService) (cl : Cluster)
      → build_cluster marshals svc ≡ returns cl
      → (cl.name ≡ svc.name) × (cl.load_assignment ≡ load_assignment svc)
  unfolding build_cluster
  build_cluster_keeps svc cl h = ground arith

add_endpoints-IsClosed :
    (svc : DiscoveredService) (b : Built) → IsClosed b → IsClosed (add_endpoints svc b)
add_endpoints-IsClosed svc b h = record {
  routed = h.routed;
  backed =
      All-map (λ cl r. (Memᴰ.append_left (load_assignment svc ∷ []) r.0, r.1)) b.clusters h.backed;
}

add_cluster-IsClosed :
    (svc : DiscoveredService) (cl : Cluster) (b : Built)
    → cl.name ≡ svc.name
    → IsBacked b.endpoints cl
    → IsClosed b
    → IsClosed (add_cluster svc cl b)
add_cluster-IsClosed svc cl b named backed h = record {
  routed =
      All-append _ b.routes (map (to_route svc.name) svc.routes)
        (All-map (λ r f. (f.0, Memᴰ.append_left (cl ∷ []) f.1, f.2)) b.routes h.routed)
        (All-of_map _ (to_route svc.name) svc.routes (λ rp. (
          cl,
          Memᴰ.append_right b.clusters (Memᴰ.head refl),
          rw (cluster-to_route svc.name rp) named,
        )));
  backed = All-append _ b.clusters (cl ∷ []) h.backed (backed, tt);
}

module _ (marshals : Message → Bool) where
  build_service-IsClosed :
      (svc : DiscoveredService) (b b' : Built)
      → IsClosed b
      → build_service marshals svc b ≡ returns b'
      → IsClosed b'
  unfolding build_service
  build_service-IsClosed svc b b' h e = elim (Bool-cases (is_served svc)) [
    | inr skip ↦ rw (← skipped skip) h
    | inl serve ↦ elim (Bool-cases (marshals (dns_cluster (dns_config svc)))) [
      | inr fails ↦ rw (← orphaned serve fails) (add_endpoints-IsClosed svc b h)
      | inl packs ↦
          let (cl, built, same) = added serve packs in
          let (named, assigned) = build_cluster_keeps marshals svc cl built in
          rw (← same) (
            add_cluster-IsClosed svc cl (add_endpoints svc b) named
              (Memᴰ.append_right b.endpoints (Memᴰ.head assigned), cc)
              (add_endpoints-IsClosed svc b h))
    ]
  ]
    where
      skipped : is_served svc ≡ false → b ≡ b'
      skipped s = ground arith

      orphaned :
          is_served svc ≡ true
          → marshals (dns_cluster (dns_config svc)) ≡ false
          → add_endpoints svc b ≡ b'
      orphaned s f = ground arith

      added :
          is_served svc ≡ true
          → marshals (dns_cluster (dns_config svc)) ≡ true
          → (cl : Cluster) × (build_cluster marshals svc ≡ returns cl)
            × (add_cluster svc cl (add_endpoints svc b) ≡ b')
      added s p =
          let (cl, built, same) =
            bind-eq-returns (build_cluster marshals svc)
              (λ cl. returns (add_cluster svc cl (add_endpoints svc b))) {b = b'} (ground arith) in
          (cl, built, cc)

  build_from-IsClosed :
      (b b' : Built) (services : List DiscoveredService)
      → IsClosed b
      → build_from marshals b services ≡ returns b'
      → IsClosed b'
  unfolding build_from
  build_from-IsClosed b b' [] h e = let same : b ≡ b' = cc in rw (← same) h
  build_from-IsClosed b b' (svc ∷ services) h e =
      let (c, first, rest) =
        bind-eq-returns (build_service marshals svc b) (λ c. build_from marshals c services) e in
      build_from-IsClosed c b' services (build_service-IsClosed svc b c h first) rest

  -- Whichever messages can be marshalled, when the loop returns then each route leads to a cluster
  -- that is listed, and each cluster's load assignment is listed and bears the cluster's name.
  pub build-IsClosed :
      (services : List DiscoveredService) (b : Built)
      → build marshals services ≡ returns b
      → IsClosed b
  unfolding build
  build-IsClosed services b e =
      build_from-IsClosed _ b services (record { routed = tt; backed = tt }) e
