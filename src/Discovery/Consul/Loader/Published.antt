-- ===== src/Discovery/Consul/Loader/Published.antt =====
-- A watch keeps the snapshot in step with the services of the aggregator.
use mathlib.Core.List.{Perm}
use flexds.Prelude.{ℕ, ℤ, ◌≡◌, refl, Bool, true, Option, some, List, [], ◌∷◌, if◌then◌else◌, arith}
use flexds.Results.{Result}
use flexds.Results.Panics.{returns}
use flexds.Strings.{Text, codes, ◌==◌}
use flexds.Dict.{Dict, lookup}
use flexds.Dict.Laws.{lookup-insert}
use flexds.Common.ServiceModel.{DiscoveredService}
use flexds.Xds.Resources.{Message}
use flexds.Xds.Cache.{SnapshotCache, CacheLaws, IsReliable}
use flexds.Discovery.Aggregator.{ServiceMap, Aggregator}
use flexds.Discovery.Aggregator.Pushed.{IsPublished, update_services-IsPublished}
use flexds.Discovery.Consul.Watcher.{Calls}
use flexds.Discovery.Consul.Watcher.Loop.{last_or}
use flexds.Discovery.Consul.Loader.{Entry, handle, handle_all, gauged}
use flexds.Discovery.Consul.Loader.Entries.{SortLaws}
use flexds.Discovery.Consul.Loader.Discovered.{Lists, discover-Lists}

module _ {E : Type 0} (health : Text → Result E (List Entry))
    (sort : (Entry → Entry → Bool) → List Entry → List Entry) (sorts : SortLaws sort)
    (parse_duration : Text → Option ℤ) (range_meta : Dict Text → Dict Text) {S : Type 0}
    (cache : SnapshotCache S) (laws : CacheLaws cache) (reliable : IsReliable cache)
    (marshals : Message → Bool) (all_marshal : (m : Message) → marshals m ≡ true)
    (listener_ports : List ℕ) (range : ServiceMap → ServiceMap)
    (any_order : (m : ServiceMap) → Perm (range m) m) where
  -- What calls of the handler lead to: the services of the last call's names are what the map has
  -- for the Consul loader, with the other loaders' as they were, and the reference snapshot is that
  -- of the map.
  abbrev pub Leads : List Text → Aggregator S → Aggregator S → Type 0
  Leads names a a' =
      (services : List DiscoveredService) × Lists parse_duration range_meta health names services
      × ((l : Text)
          → lookup l a'.discovered_service_map ≡ (
              if codes "consul_loader" == l
              then some services
              else lookup l a.discovered_service_map))
      × IsPublished cache a'

  handle-Leads :
      (names : List Text) (a : Aggregator S)
      → (a' : Aggregator S) × (handle health sort parse_duration range_meta cache marshals
            listener_ports range names a
          ≡ returns a')
        × Leads names a a'
  unfolding handle
  handle-Leads names a =
      let (services, found, lists) =
        discover-Lists parse_duration range_meta health sort sorts names in
      let (a', updated, map, p) =
        update_services-IsPublished cache laws reliable marshals all_marshal listener_ports range
          any_order (codes "consul_loader") services (gauged names a) in
      (
        a',
        rw found updated,
        (
          services,
          lists,
          λ l. rw map (lookup-insert (codes "consul_loader") l services a.discovered_service_map),
          p,
        ),
      )

  Leads-trans :
      (names next : List Text) (a a1 a2 : Aggregator S)
      → Leads names a a1
      → Leads next a1 a2
      → Leads next a a2
  Leads-trans names next a a1 a2 (old, _, first, _) (services, lists, second, p) =
      (services, lists, λ l. over l (second l) (first l), p)
    where
      over :
          (l : Text)
          → lookup l a2.discovered_service_map ≡ (
              if codes "consul_loader" == l
              then some services
              else lookup l a1.discovered_service_map)
          → lookup l a1.discovered_service_map
            ≡ (if codes "consul_loader" == l then some old else lookup l a.discovered_service_map)
          → lookup l a2.discovered_service_map ≡ (
              if codes "consul_loader" == l
              then some services
              else lookup l a.discovered_service_map)
      over l h k = ground arith

  -- The handler's calls return, and lead to what the last one finds.
  pub handle_all-Leads :
      (names : List Text) (calls : Calls) (a : Aggregator S)
      → (a' : Aggregator S) × (handle_all health sort parse_duration range_meta cache marshals
            listener_ports range
            (names ∷ calls)
            a
          ≡ returns a')
        × Leads (last_or names calls) a a'
  unfolding handle_all
  handle_all-Leads names [] a = let (a1, first, p) = handle-Leads names a in (a1, rw first refl, p)
  handle_all-Leads names (next ∷ calls) a =
      let (a1, first, p) = handle-Leads names a in
      let (a2, rest, q) = handle_all-Leads next calls a1 in
      (a2, rw first rest, Leads-trans names (last_or next calls) a a1 a2 p q)
