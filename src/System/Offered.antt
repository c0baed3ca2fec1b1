-- ===== src/System/Offered.antt =====
-- The clusters of a map of services, without order and repetition.
use mathlib.Core.List.{Memᴰ}
use mathlib.Core.List.Memᴰ
use flexds.Prelude.{◌≡◌, refl, true, Option, some, List, [], ◌∷◌, map, arith, Bool-cases, inl, inr}
use flexds.Strings.{Text, ◌==◌}
use flexds.Strings.Equality.{==_iff, ==_refl}
use flexds.Dict.{lookup, IsMap}
use flexds.Common.ServiceModel.{DiscoveredService}
use flexds.Xds.Resources.{Cluster}
use flexds.Xds.Clusters.{is_served}
use flexds.Xds.Clusters.Served.{served, cluster_of}
use flexds.Discovery.Aggregator.{ServiceMap, aggregate}

-- The cluster is that of a service, with an instance and a route, in what some loader reported.
abbrev pub Offers : (Text → Option (List DiscoveredService)) → Cluster → Type 0
Offers reported c =
    (loader : Text) × (services : List DiscoveredService) × (svc : DiscoveredService) × (reported
        loader
      ≡ some services)
    × Memᴰ svc services
    × (is_served svc ≡ true)
    × (c ≡ cluster_of svc)

served_sound :
    (c : Cluster) (xs : List DiscoveredService)
    → Memᴰ c (map cluster_of (served xs))
    → (svc : DiscoveredService) × Memᴰ svc xs × (is_served svc ≡ true) × (c ≡ cluster_of svc)
served_sound c [] m = absurd (Memᴰ.not-nil m)
served_sound c (x ∷ xs) m = elim (Bool-cases (is_served x)) [
  | inr skip ↦ later (served_sound c xs (rw skip at m))
  | inl serve ↦ elim (Memᴰ.cases_cons (rw serve at m)) [
    | inl e ↦ (x, Memᴰ.head refl, serve, e)
    | inr rest ↦ later (served_sound c xs rest)
  ]
]
  where
    later :
        ((svc : DiscoveredService) × Memᴰ svc xs × (is_served svc ≡ true) × (c ≡ cluster_of svc))
        → (svc : DiscoveredService) × Memᴰ svc (x ∷ xs)
          × (is_served svc ≡ true)
          × (c ≡ cluster_of svc)
    later (svc, there, serve, e) = (svc, Memᴰ.tail there, serve, e)

served_complete :
    (svc : DiscoveredService) (xs : List DiscoveredService)
    → is_served svc ≡ true
    → Memᴰ svc xs
    → Memᴰ svc (served xs)
served_complete svc [] serve m = elim m [ ]
served_complete svc (x ∷ xs) serve (Memᴰ.head e) = rw (← e, serve) (Memᴰ.head refl)
served_complete svc (x ∷ xs) serve (Memᴰ.tail m) = elim (Bool-cases (is_served x)) [
  | inl k ↦ rw k (Memᴰ.tail (served_complete svc xs serve m))
  | inr k ↦ rw k (served_complete svc xs serve m)
]

aggregate_sound :
    (svc : DiscoveredService) (m : ServiceMap)
    → IsMap m
    → Memᴰ svc (aggregate m)
    → (loader : Text) × (services : List DiscoveredService) × (lookup loader m ≡ some services)
      × Memᴰ svc services
unfolding aggregate lookup
aggregate_sound svc [] h i = absurd (Memᴰ.not-nil i)
aggregate_sound svc ((l, services) ∷ m) (new, h) i = elim (Memᴰ.append_cases services i) [
  | inl here ↦ (l, services, rw (==_refl l), here)
  | inr rest ↦
      let (loader, found, e, there) = aggregate_sound svc m h rest in
      (loader, found, ground (arith, ==_iff l loader), there)
]

aggregate_complete :
    (svc : DiscoveredService) (loader : Text) (services : List DiscoveredService) (m : ServiceMap)
    → lookup loader m ≡ some services
    → Memᴰ svc services
    → Memᴰ svc (aggregate m)
unfolding aggregate lookup
aggregate_complete svc loader services [] e i = cc
aggregate_complete svc loader services ((l, found) ∷ m) e i = elim (Bool-cases (l == loader)) [
  | inl k ↦ let same : found ≡ services = ground arith in Memᴰ.append_left (aggregate m) (rw same i)
  | inr k ↦ Memᴰ.append_right found (aggregate_complete svc loader services m (ground arith) i)
]

pub Offers-sound :
    (c : Cluster) (m : ServiceMap)
    → IsMap m
    → Memᴰ c (map cluster_of (served (aggregate m)))
    → Offers (λ loader. lookup loader m) c
Offers-sound c m h i =
    let (svc, there, serve, e) = served_sound c (aggregate m) i in
    let (loader, services, found, inside) = aggregate_sound svc m h there in
    (loader, services, svc, found, inside, serve, e)

pub Offers_complete :
    (c : Cluster) (m : ServiceMap)
    → Offers (λ loader. lookup loader m) c
    → Memᴰ c (map cluster_of (served (aggregate m)))
Offers_complete c m (loader, services, svc, found, inside, serve, e) = rw e (
    Memᴰ.map cluster_of (
      served_complete svc (aggregate m) serve
        (aggregate_complete svc loader services m found inside)))
