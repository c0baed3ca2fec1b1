-- ===== src/Xds/SnapshotManager/Whole.antt =====
-- What makes the resources of one snapshot fit together.
use mathlib.Core.List.{Memᴰ}
use flexds.Prelude.{◌≡◌, refl, ℕ, List, [], ◌∷◌, All, All-of_map}
use flexds.Xds.Resources.{
  HttpConnectionManager, connection_manager, RouteConfiguration, VirtualHost, Route, Cluster,
  Listener, Resources,
}
use flexds.Xds.Clusters.{Built}
use flexds.Xds.Clusters.Integrity.{HasCluster, IsBacked, IsClosed}
use flexds.Xds.SnapshotManager.{
  hcm_config, to_listener, virtual_hosts, full_resources, empty_resources,
}

-- A listener's filter is a connection manager, which asks for a route configuration that is there.
abbrev pub IsConfigured : List RouteConfiguration → Listener → Type 0
IsConfigured configs l =
    (h : HttpConnectionManager) × (config : RouteConfiguration) × (l.filter_config
      ≡ connection_manager h)
    × Memᴰ config configs
    × (config.name ≡ h.route_config_name)

abbrev pub LeadsTo : List Cluster → RouteConfiguration → Type 0
LeadsTo clusters config =
    All
      (λ (host : VirtualHost).
        All (λ (r : Route). HasCluster clusters r.action.cluster) host.routes)
      config.virtual_hosts

-- Each route leads to a cluster that is there, each cluster has its load assignment, and each
-- listener its routes.
pub record IsWhole (r : Resources) : Type 0 where
  pub routed : All (LeadsTo r.clusters) r.routes
  pub backed : All (IsBacked r.endpoints) r.clusters
  pub configured : All (IsConfigured r.routes) r.listeners

pub empty_resources-IsWhole : IsWhole empty_resources
empty_resources-IsWhole = record { routed = tt; backed = tt; configured = tt }

virtual_hosts-routed :
    (clusters : List Cluster) (routes : List Route)
    → All (λ (r : Route). HasCluster clusters r.action.cluster) routes
    → All
        (λ (host : VirtualHost).
          All (λ (r : Route). HasCluster clusters r.action.cluster) host.routes)
        (virtual_hosts routes)
virtual_hosts-routed clusters [] h = tt
virtual_hosts-routed clusters (r ∷ routes) h = (h, tt)

pub full_resources-IsWhole :
    (ports : List ℕ) (b : Built) → IsClosed b → IsWhole (full_resources ports b)
full_resources-IsWhole ports b h = record {
  routed = (virtual_hosts-routed b.clusters b.routes h.routed, tt);
  backed = h.backed;
  configured = All-of_map _ to_listener ports (λ port. (hcm_config, _, refl, Memᴰ.head refl, refl));
}
