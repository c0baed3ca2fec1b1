-- ===== src/Discovery/Consul/Loader/Discovered.antt =====
-- Which services the handler discovers, and from what.
use mathlib.Core.List.{Perm}
use mathlib.Core.List.Perm
use flexds.Prelude.{ℤ, ◌≡◌, ◌⊎◌, refl, Bool, Option, List, [], ◌∷◌, inl, inr}
use flexds.Results.{Result, ok, err, Result-cases}
use flexds.Results.Panics.{returns}
use flexds.Strings.{Text, codes}
use flexds.Dict.{Dict, lookup}
use flexds.Common.ServiceModel.{DiscoveredService}
use flexds.Discovery.Consul.RouteParser.{parse_service_routes}
use flexds.Discovery.Consul.Loader.{
  Entry, newer, instances_of, is_set, refresh_rate, to_service, of_sorted, discover_one, discover,
}
use flexds.Discovery.Consul.Loader.Entries.{
  SortLaws, IsSorted, IsLatest, sorted-IsLatest, instances_of-perm,
}

module _ (parse_duration : Text → Option ℤ) (range_meta : Dict Text → Dict Text) where
  -- A service as its healthy entries have it: the instances are those of all entries; the flags, the
  -- refresh rate and the routes are those of an entry with the highest index.
  pub record Describes (svc : Text) (entries : List Entry) (s : DiscoveredService) : Type 0 where
    pub latest : Entry
    pub others : List Entry
    pub permuted : Perm (latest ∷ others) entries
    pub newest : IsLatest latest (latest ∷ others)
    pub named : s.name ≡ svc
    pub reached : Perm s.instances (instances_of entries)
    pub http2 : s.enable_http2 ≡ is_set (codes "http2") latest.meta
    pub tls : s.enable_tls ≡ is_set (codes "tls") latest.meta
    pub rate :
        s.dns_refresh_rate
        ≡ refresh_rate parse_duration (lookup (codes "dns_refresh_rate") latest.meta)
    pub routed : s.routes ≡ parse_service_routes latest.service (range_meta latest.meta)

  module _ {E : Type 0} (health : Text → Result E (List Entry)) where
    -- A query that fails, or that finds no healthy entry.
    abbrev pub IsPassed : Text → Type 0
    IsPassed svc = ((e : E) × (health svc ≡ err e)) ⊎ (health svc ≡ ok [])

    -- The services discovered from names, in order.
    pub data Lists : List Text → List DiscoveredService → Type 0 where
      none_left : Lists [] []
      passed :
          {svc : Text} {names : List Text} {services : List DiscoveredService}
          → IsPassed svc
          → Lists names services
          → Lists (svc ∷ names) services
      found :
          {svc : Text} {names : List Text} {s : DiscoveredService}
          {services : List DiscoveredService}
          → (e : Entry) (entries : List Entry) → health svc ≡ ok (e ∷ entries)
          → Describes svc (e ∷ entries) s
          → Lists names services
          → Lists (svc ∷ names) (s ∷ services)

    module _ (sort : (Entry → Entry → Bool) → List Entry → List Entry) (laws : SortLaws sort) where
      of_sorted-Describes :
          (svc : Text) (e : Entry) (entries sorted : List Entry)
          → Perm sorted (e ∷ entries)
          → IsSorted newer sorted
          → (s : DiscoveredService) × (of_sorted health sort parse_duration range_meta svc sorted
              ≡ returns s)
            × Describes svc (e ∷ entries) s
      unfolding of_sorted
      of_sorted-Describes svc e entries [] p h = absurd (cc (Perm.nil-eq p))
      of_sorted-Describes svc e entries (latest ∷ others) p h = (
        to_service health sort parse_duration range_meta svc latest (latest ∷ others),
        refl,
        unfold to_service in
            record {
              latest = latest;
              others = others;
              permuted = p;
              newest = sorted-IsLatest latest others h;
              named = refl;
              reached = instances_of-perm p;
              http2 = refl;
              tls = refl;
              rate = refl;
              routed = refl;
            },
      )

      discover_found :
          (svc : Text) (names : List Text) (services : List DiscoveredService) (e : Entry)
          (entries : List Entry)
          → health svc ≡ ok (e ∷ entries)
          → discover health sort parse_duration range_meta names ≡ returns services
          → Lists names services
          → (all : List DiscoveredService) × (discover health sort parse_duration range_meta
                (svc ∷ names)
              ≡ returns all)
            × Lists (svc ∷ names) all
      unfolding discover discover_one
      discover_found svc names services e entries h r l =
          let (s, one, d) =
            of_sorted-Describes svc e entries (sort newer (e ∷ entries))
              (laws.permutes (e ∷ entries)) (laws.sorts (e ∷ entries)) in
          (s ∷ services, rw (h, one, r), found e entries h d l)

      -- Where sort.Slice sorts, the handler discovers without a panic one service for each name
      -- whose query finds a healthy entry, in the order of the names: with the instances of all its
      -- entries and the metadata of one with the highest index. A name whose query fails is left
      -- out like one without entries.
      pub discover-Lists :
          (names : List Text)
          → (services : List DiscoveredService) × (discover health sort parse_duration range_meta
                names
              ≡ returns services)
            × Lists names services
      unfolding discover discover_one
      discover-Lists [] = ([], refl, none_left)
      discover-Lists (svc ∷ names) =
          let (services, r, l) = discover-Lists names in
          elim (Result-cases (health svc)) [
            | inr (e, h) ↦ (services, rw (h, r), passed (inl (e, h)) l)
            | inl ([], h) ↦ (services, rw (h, r), passed (inr h) l)
            | inl (e ∷ entries, h) ↦ discover_found svc names services e entries h r l
          ]
