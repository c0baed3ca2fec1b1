-- ===== src/Discovery/Marathon/Load/Polled.antt =====
-- The polling loop, round after round: how it ends, and what its last load leaves.
use mathlib.Core.List.{Perm}
use flexds.Prelude.{
  ℕ, ◌≡◌, ◌⊎◌, refl, ◌∙◌, Bool, true, Option, none, some, List, [], ◌∷◌, All, if◌then◌else◌, arith,
  Bool-cases, inl, inr,
}
use flexds.Results.{ok, err, Result-cases}
use flexds.Results.Panics.{returns}
use flexds.Strings.{Text, codes, ◌==◌}
use flexds.Dict.{lookup, insert}
use flexds.Dict.Laws.{lookup-insert}
use flexds.Xds.Resources.{Message}
use flexds.Xds.Cache.{SnapshotCache, CacheLaws, IsReliable}
use flexds.Discovery.Aggregator.{ServiceMap, Aggregator}
use flexds.Discovery.Aggregator.Pushed.{IsPublished, update_services-IsPublished}
use flexds.Discovery.Marathon.{App}
use flexds.Discovery.Marathon.Conversion.{all_sound, all_converted, convert_lem}
use flexds.Discovery.Marathon.Request.{LoadError, Outside, Config, fetch}
use flexds.Discovery.Marathon.Load.{
  Round, done, tick, Outcome, returned, waits, load_apps, load_config,
}
use flexds.Discovery.Marathon.Load.Polling.{AreSound}

-- What loads leave, by the apps of the last one: its services are what the map has for the
-- Marathon loader, and the reference snapshot is that of the map.
abbrev pub Leaves :
    {S : Type 0} → SnapshotCache S → Option (List App) → Aggregator S → Aggregator S → Type 0
Leaves cache none a a' = a' ≡ a
Leaves cache (some apps) a a' =
    ((l : Text)
      → lookup l a'.discovered_service_map ≡ (
          if codes "marathon_loader" == l
          then some (all_converted apps)
          else lookup l a.discovered_service_map))
    × IsPublished cache a'

others_kept :
    {S : Type 0} (cache : SnapshotCache S) (seen : Option (List App)) (a a1 : Aggregator S)
    (l : Text)
    → Leaves cache seen a a1
    → (codes "marathon_loader" == l ≡ true)
      ⊎ (lookup l a1.discovered_service_map ≡ lookup l a.discovered_service_map)
others_kept cache none a a1 l h = inr (rw h refl)
others_kept cache (some apps) a a1 l (h, p) = elim (Bool-cases (codes "marathon_loader" == l)) [
  | inl e ↦ inl e
  | inr e ↦ inr (h l ∙ rw e refl)
]

module _ {E : Type 0} (config : Config) where
  -- The outcome that the requests alone decide: the first that fails, or a cancelled context before.
  abbrev pub ending : List (Round E) → Outcome E
  ending [] = waits
  ending (done ∷ rounds) = returned none
  ending (tick out ∷ rounds) =
      let rest = ending rounds in
      elim (fetch out config) [ ok apps ↦ rest | err e ↦ returned (some e) ]

  -- The apps of the last request up to there that has not failed; `seen` if there is none.
  abbrev pub last_apps : Option (List App) → List (Round E) → Option (List App)
  last_apps seen [] = seen
  last_apps seen (done ∷ rounds) = seen
  last_apps seen (tick out ∷ rounds) = elim (fetch out config) [
    | ok apps ↦ last_apps (some apps) rounds
    | err e ↦ seen
  ]

  ending_loaded :
      (out : Outside E) (apps : List App) (rounds : List (Round E))
      → fetch out config ≡ ok apps
      → ending (tick out ∷ rounds) ≡ ending rounds
  ending_loaded out apps rounds e = rw (ending, e) refl

  ending_failed :
      (out : Outside E) (e : LoadError E) (rounds : List (Round E))
      → fetch out config ≡ err e
      → ending (tick out ∷ rounds) ≡ returned (some e)
  ending_failed out e rounds h = rw (ending, h) refl

  -- The apps of the round, if it has any, can be converted.
  abbrev pub IsSoundRound : Round E → Type 0
  IsSoundRound done = Unit
  IsSoundRound (tick out) = AreSound (fetch out config)

  module _ {S : Type 0} (cache : SnapshotCache S) (laws : CacheLaws cache)
      (reliable : IsReliable cache) (marshals : Message → Bool)
      (all_marshal : (m : Message) → marshals m ≡ true) (listener_ports : List ℕ)
      (range : ServiceMap → ServiceMap) (any_order : (m : ServiceMap) → Perm (range m) m) where
    -- One load more that does not fail.
    load-Leaves :
        (seen : Option (List App)) (apps : List App) (a a1 : Aggregator S)
        → all_sound apps ≡ true
        → Leaves cache seen a a1
        → (a2 : Aggregator S) × (load_apps {E = E} cache marshals listener_ports range (ok apps) a1
            ≡ returns (a2, none))
          × Leaves cache (some apps) a a2
    unfolding load_apps
    load-Leaves seen apps a a1 sound h =
        let (a2, runs, map, p) =
          update_services-IsPublished cache laws reliable marshals all_marshal listener_ports range
            any_order (codes "marathon_loader") (all_converted apps) a1 in
        (a2, rw (convert_lem apps, sound, runs) refl, (λ l. rw map (found l), p))
      where
        found :
            (l : Text)
            → lookup l
                (insert (codes "marathon_loader") (all_converted apps) a1.discovered_service_map)
              ≡ (if codes "marathon_loader" == l
                  then some (all_converted apps)
                  else lookup l a.discovered_service_map)
        found l = ground (
          arith,
          lookup-insert (codes "marathon_loader") l (all_converted apps) a1.discovered_service_map,
          others_kept cache seen a a1 l h,
        )

    polls-Leaves :
        (rounds : List (Round E)) (seen : Option (List App)) (a a1 : Aggregator S)
        → All IsSoundRound rounds
        → Leaves cache seen a a1
        → (a2 : Aggregator S) × (load_config cache marshals listener_ports range config rounds a1
            ≡ returns (a2, ending rounds))
          × Leaves cache (last_apps seen rounds) a a2
    unfolding load_config
    polls-Leaves [] seen a a1 sound h = (a1, refl, h)
    polls-Leaves (done ∷ rounds) seen a a1 sound h = (a1, refl, h)
    polls-Leaves (tick out ∷ rounds) seen a a1 (sound, sounds) h =
        elim (Result-cases (fetch out config)) [
          | inr (e, failed) ↦ (
            a1,
            rw (ending_failed out e rounds failed, failed) (unfold load_apps in refl),
            rw (last_apps, failed) h,
          )
          | inl (apps, fetched) ↦
              let (a2, loads, h2) = load-Leaves seen apps a a1 (rw fetched at sound) h in
              let (a3, rest, h3) = polls-Leaves rounds (some apps) a a2 sounds h2 in
              (
                a3,
                rw (ending_loaded out apps rounds fetched, fetched, loads) rest,
                rw (last_apps, fetched) h3,
              )
        ]

    -- Where messages can be marshalled, the cache takes snapshots and the apps of every round can be
    -- converted, LoadConfig does not panic. It returns the error of the first request that fails, or
    -- nil if the context is cancelled before, and waits otherwise. If no request up to there has
    -- succeeded, nothing has changed; otherwise the aggregator has for the Marathon loader the
    -- services of the apps of the last such request, and the other loaders' as they were, and the
    -- reference snapshot has, in some order, the clusters of exactly those of them that have an
    -- instance and a route.
    pub load_config-Leaves :
        (rounds : List (Round E)) (a : Aggregator S)
        → All IsSoundRound rounds
        → (a' : Aggregator S) × (load_config cache marshals listener_ports range config rounds a
            ≡ returns (a', ending rounds))
          × Leaves cache (last_apps none rounds) a a'
    load_config-Leaves rounds a sound = polls-Leaves rounds none a a sound refl
