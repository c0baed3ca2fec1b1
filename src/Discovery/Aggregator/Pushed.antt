-- ===== src/Discovery/Aggregator/Pushed.antt =====
-- From one loader's update to the snapshot in the cache.
use mathlib.Core.Logic.{∥∥₁_elim}
use mathlib.Core.List.{Perm, Permᴰ, Perm-prop}
use mathlib.Core.List.Perm
use flexds.Prelude.{ℕ, Bool, ◌≡◌, refl, true, false, List, [], ◌∷◌, ◌++◌, map, inl, if◌then◌else◌}
use flexds.Results.{ok}
use flexds.Results.Panics.{returns}
use flexds.Strings.{Text}
use flexds.Dict.{insert, IsMap}
use flexds.Common.ServiceModel.{DiscoveredService}
use flexds.Xds.Resources.{Message, Snapshot}
use flexds.Xds.Clusters.{is_served}
use flexds.Xds.Clusters.Served.{served, cluster_of}
use flexds.Xds.Cache.{SnapshotCache, CacheLaws, IsReliable}
use flexds.Xds.SnapshotManager.{reference_key, snapshot_of}
use flexds.Xds.SnapshotManager.Distribute.{distribute_reaches}
use flexds.Xds.SnapshotManager.Push.{pushed, resources_of, build_and_push_lem}
use flexds.Discovery.Aggregator.{ServiceMap, Aggregator, aggregate, update_services}
use flexds.Discovery.Aggregator.Order.{without, aggregate-perm, aggregate-update}

swap_kept :
    (a b : Bool) (s t : DiscoveredService) (l : List DiscoveredService)
    → Perm
        (if b then t ∷ (if a then s ∷ l else l) else if a then s ∷ l else l)
        (if a then s ∷ (if b then t ∷ l else l) else if b then t ∷ l else l)
swap_kept true true s t l = Perm.swap s t l
swap_kept true false s t l = Perm.refl _
swap_kept false b s t l = Perm.refl _

keep_same :
    (a : Bool) (s : DiscoveredService) {l m : List DiscoveredService}
    → Perm l m
    → Perm (if a then s ∷ l else l) (if a then s ∷ m else m)
keep_same true s h = Perm.cons s h
keep_same false s h = h

kept : {xs ys : List DiscoveredService} → Permᴰ xs ys → Perm (served xs) (served ys)
kept Permᴰ.nil = Perm.refl []
kept (Permᴰ.cons {b = s} p h) = rw p (keep_same (is_served s) s (kept h))
kept (Permᴰ.swap {a' = s} {b' = t} {l = l} p q) =
    rw (p, q) (swap_kept (is_served s) (is_served t) s t (served l))
kept (Permᴰ.trans h k) = Perm.trans (kept h) (kept k)

pub served-perm : {xs ys : List DiscoveredService} → Perm xs ys → Perm (served xs) (served ys)
served-perm p = ∥∥₁_elim p Perm-prop kept

pub clusters-resources_of :
    (ports : List ℕ) (services : List DiscoveredService)
    → (resources_of ports services).clusters ≡ map cluster_of services
clusters-resources_of ports [] = refl
clusters-resources_of ports (svc ∷ services) = refl

-- The clusters of a push of the map, whatever the order in which `range` meets it.
pub pushed_clusters :
    (range : ServiceMap → ServiceMap)
    → ((m : ServiceMap) → Perm (range m) m)
    → (ports : List ℕ) (m : ServiceMap)
    → Perm
        (resources_of ports (served (aggregate (range m)))).clusters
        (map cluster_of (served (aggregate m)))
pushed_clusters range any_order ports m =
    rw (clusters-resources_of ports (served (aggregate (range m))))
      (Perm.map cluster_of (served-perm (aggregate-perm (any_order m))))

-- The reference snapshot has the clusters of what the loaders reported last, and no other cluster.
abbrev pub IsPublished : {S : Type 0} → SnapshotCache S → Aggregator S → Type 0
IsPublished cache a =
    (snap : Snapshot) × (cache.get_snapshot reference_key a.world.cache_state ≡ ok snap)
    × Perm snap.resources.clusters (map cluster_of (served (aggregate a.discovered_service_map)))

module _ {S : Type 0} (cache : SnapshotCache S) (laws : CacheLaws cache)
    (reliable : IsReliable cache) (marshals : Message → Bool)
    (all_marshal : (m : Message) → marshals m ≡ true) (listener_ports : List ℕ)
    (range : ServiceMap → ServiceMap) (any_order : (m : ServiceMap) → Perm (range m) m) where
  pub update_services-IsPublished :
      (loader : Text) (services : List DiscoveredService) (a : Aggregator S)
      → (a' : Aggregator S) × (update_services cache marshals listener_ports range loader services a
          ≡ returns a')
        × (a'.discovered_service_map ≡ insert loader services a.discovered_service_map)
        × IsPublished cache a'
  unfolding update_services
  update_services-IsPublished loader services a =
      let m = insert loader services a.discovered_service_map in
      let all = aggregate (range m) in
      (
        record {
          discovered_service_map = m;
          world = pushed cache laws reliable marshals all_marshal listener_ports all a.world;
        },
        rw (build_and_push_lem cache laws reliable marshals all_marshal listener_ports all a.world),
        refl,
        (
          snapshot_of cache a.world (resources_of listener_ports (served all)),
          distribute_reaches cache laws reliable _ reference_key a.world.cache_state (inl refl),
          pushed_clusters range any_order listener_ports m,
        ),
      )

  -- Where messages can be marshalled, the cache takes snapshots and the map has each loader once:
  -- UpdateServices returns, and the reference snapshot then has, in some order, the clusters of
  -- the services with an instance and a route, among those of this update and those that every
  -- other loader reported last, and no other cluster.
  pub update_services_clusters :
      (loader : Text) (services : List DiscoveredService) (a : Aggregator S)
      → IsMap a.discovered_service_map
      → (a' : Aggregator S) × (snap : Snapshot) × (update_services cache marshals listener_ports
            range loader services a
          ≡ returns a')
        × (cache.get_snapshot reference_key a'.world.cache_state ≡ ok snap)
        × Perm snap.resources.clusters (
            map cluster_of
              (served (services ++ aggregate (without loader a.discovered_service_map))))
  unfolding update_services
  update_services_clusters loader services a h =
      let m = insert loader services a.discovered_service_map in
      let all = aggregate (range m) in
      (
        record {
          discovered_service_map = m;
          world = pushed cache laws reliable marshals all_marshal listener_ports all a.world;
        },
        snapshot_of cache a.world (resources_of listener_ports (served all)),
        rw (build_and_push_lem cache laws reliable marshals all_marshal listener_ports all a.world),
        distribute_reaches cache laws reliable _ reference_key a.world.cache_state (inl refl),
        rw (clusters-resources_of listener_ports (served all)) (
            Perm.map cluster_of (
              served-perm
                (aggregate-update range loader services a.discovered_service_map any_order h))),
      )
