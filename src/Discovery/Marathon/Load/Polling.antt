-- ===== src/Discovery/Marathon/Load/Polling.antt =====
-- What a load leaves, and when the polling loop returns.
use mathlib.Core.List.{Perm}
use flexds.Prelude.{
  ℕ, ◌≡◌, ◌≢◌, refl, Bool, true, Option, none, some, List, [], ◌∷◌, ◌++◌, map, All,
}
use flexds.Results.{Result, ok, err}
use flexds.Results.Panics.{Run, returns, panics, ◌>>=◌}
use flexds.Strings.{codes}
use flexds.Dict.{IsMap}
use flexds.Xds.Resources.{Message, Snapshot}
use flexds.Xds.Clusters.Served.{served, cluster_of}
use flexds.Xds.Cache.{SnapshotCache, CacheLaws, IsReliable}
use flexds.Xds.SnapshotManager.{reference_key}
use flexds.Discovery.Aggregator.{ServiceMap, Aggregator, aggregate}
use flexds.Discovery.Aggregator.Order.{without}
use flexds.Discovery.Aggregator.Pushed.{update_services_clusters}
use flexds.Discovery.Marathon.{App}
use flexds.Discovery.Marathon.Conversion.{all_sound, all_converted, convert_lem}
use flexds.Discovery.Marathon.Request.{LoadError, Config, fetch}
use flexds.Discovery.Marathon.Load.{Round, done, tick, Outcome, returned, load_apps, load_config}

-- What a load leaves, by the apps that it has fetched.
abbrev pub Loads :
    {E : Type 0} {S : Type 0}
    → SnapshotCache S
    → Aggregator S
    → Result (LoadError E) (List App)
    → Aggregator S × Option (LoadError E)
    → Type 0
Loads cache a (err e) (a', r) = (a' ≡ a) × (r ≡ some e)
Loads cache a (ok apps) (a', r) =
    (r ≡ none)
    × (snap : Snapshot) × (cache.get_snapshot reference_key a'.world.cache_state ≡ ok snap)
    × Perm snap.resources.clusters (
        map cluster_of (
          served (
            all_converted apps
            ++ aggregate (without (codes "marathon_loader") a.discovered_service_map))))

-- The apps can be converted, if there are any.
abbrev pub AreSound : {E : Type 0} → Result (LoadError E) (List App) → Type 0
AreSound (err e) = Unit
AreSound (ok apps) = all_sound apps ≡ true

abbrev pub IsTick : {E : Type 0} → Round E → Type 0
IsTick done = ⊥
IsTick (tick out) = Unit

module _ {E : Type 0} {S : Type 0} (cache : SnapshotCache S) (marshals : Message → Bool)
    (listener_ports : List ℕ) (range : ServiceMap → ServiceMap) where
  module _ (laws : CacheLaws cache) (reliable : IsReliable cache)
      (all_marshal : (m : Message) → marshals m ≡ true)
      (any_order : (m : ServiceMap) → Perm (range m) m) where
    -- Where messages can be marshalled, the cache takes snapshots, the map has each loader once
    -- and the apps can be converted, a load returns. If the request failed, it returns that error
    -- and nothing changes; otherwise no error, and the reference snapshot has the clusters of the
    -- apps' services and of those of the other loaders that have an instance and a route, and no
    -- other cluster.
    pub load_apps-Loads :
        (fetched : Result (LoadError E) (List App)) (a : Aggregator S)
        → AreSound fetched
        → IsMap a.discovered_service_map
        → (r : Aggregator S × Option (LoadError E)) × (load_apps cache marshals listener_ports range
              fetched a
            ≡ returns r)
          × Loads cache a fetched r
    unfolding load_apps
    load_apps-Loads (err e) a sound h = ((a, some e), refl, (refl, refl))
    load_apps-Loads (ok apps) a sound h =
        let (a', snap, runs, held, p) =
          update_services_clusters cache laws reliable marshals all_marshal listener_ports range
            any_order (codes "marathon_loader") (all_converted apps) a h in
        ((a', none), rw (convert_lem apps, sound, runs) refl, (refl, snap, held, p))

  -- The loop behind the outcome of a load.
  abbrev continued :
      Config
      → List (Round E)
      → Run (Aggregator S × Option (LoadError E))
      → Run (Aggregator S × Outcome E)
  continued config rounds m = m >>= λ r. elim r.1 as (λ _. Run (Aggregator S × Outcome E)) [
    | some e ↦ returns (r.0, returned (some e))
    | none ↦ load_config cache marshals listener_ports range config rounds r.0
  ]

  continued_waits :
      (config : Config) (rounds : List (Round E)) (a' : Aggregator S)
      (m : Run (Aggregator S × Option (LoadError E)))
      → ((a : Aggregator S)
          → load_config cache marshals listener_ports range config rounds a
            ≢ returns (a', returned none))
      → continued config rounds m ≢ returns (a', returned none)
  continued_waits config rounds a' panics h = λ k. cc
  continued_waits config rounds a' (returns (a, some e)) h = λ k. cc
  continued_waits config rounds a' (returns (a, none)) h = h a

  -- While the context is not cancelled, LoadConfig does not return nil.
  pub load_config_waits :
      (config : Config) (rounds : List (Round E)) (a a' : Aggregator S)
      → All IsTick rounds
      → load_config cache marshals listener_ports range config rounds a
        ≢ returns (a', returned none)
  unfolding load_config
  load_config_waits config [] a a' h = λ k. cc
  load_config_waits config (done ∷ rounds) a a' (h, hs) = absurd h
  load_config_waits config (tick out ∷ rounds) a a' (h, hs) =
      continued_waits config rounds a'
        (load_apps cache marshals listener_ports range (fetch out config) a)
        (λ b. load_config_waits config rounds b a' hs)
