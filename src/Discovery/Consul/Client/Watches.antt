-- ===== src/Discovery/Consul/Client/Watches.antt =====
-- StartWatcher whole, with the immediate strategy.
use mathlib.Core.List.{Perm}
use flexds.Prelude.{
  ℕ, ℤ, ◌≡◌, ◌≢◌, inl, inr, refl, Bool, true, Option, none, some, List, [], ◌∷◌, Bool-cases,
}
use flexds.Results.{Result, ok, err, Result-cases}
use flexds.Results.Panics.{Run, returns}
use flexds.Strings.{Text, codes, is_empty, ◌==◌}
use flexds.Strings.Equality.{==-ne}
use flexds.Dict.{Dict}
use flexds.Xds.Resources.{Message}
use flexds.Xds.Cache.{SnapshotCache, CacheLaws, IsReliable}
use flexds.Discovery.Aggregator.{ServiceMap, Aggregator}
use flexds.Discovery.Consul.Watcher.{Round, Calls, immediate_watcher, new_watcher, watch}
use flexds.Discovery.Consul.Watcher.Loop.{last_or, changes_of}
use flexds.Discovery.Consul.Watcher.Latest.{last_new, last-changes_of, changes_of-nil}
use flexds.Discovery.Consul.Loader.{Entry, handle_all, strategy_or_default, start_watcher}
use flexds.Discovery.Consul.Loader.Entries.{SortLaws}
use flexds.Discovery.Consul.Loader.Published.{Leads, handle_all-Leads}
use flexds.Discovery.Consul.Client.{HttpRequest, ClientConfig, new_client, watch_catalog}

-- Any strategy but the two others is the immediate one.
new_watcher-immediate :
    (strategy : Text)
    → strategy ≢ codes "debounce"
    → strategy ≢ codes "batch"
    → new_watcher (strategy_or_default strategy) ≡ immediate_watcher
unfolding new_watcher
new_watcher-immediate strategy d b = elim (Bool-cases (is_empty strategy)) [
  | inl e ↦ rw e (unfold ◌==◌ in refl)
  | inr e ↦ rw (e, ==-ne strategy (codes "debounce") d, ==-ne strategy (codes "batch") b) refl
]

module _ {A D C E : Type 0} (send : HttpRequest → A) (defaults : D)
    (make : ClientConfig A D → Result E C) (health : C → Text → Result E (List Entry))
    (rounds : C → List Round) (sort : (Entry → Entry → Bool) → List Entry → List Entry)
    (sorts : SortLaws sort) (parse_duration : Text → Option ℤ) (range_meta : Dict Text → Dict Text)
    {S : Type 0} (cache : SnapshotCache S) (laws : CacheLaws cache) (reliable : IsReliable cache)
    (marshals : Message → Bool) (all_marshal : (m : Message) → marshals m ≡ true)
    (listener_ports : List ℕ) (range : ServiceMap → ServiceMap)
    (any_order : (m : ServiceMap) → Perm (range m) m) where
  -- What the watch of a client comes to: with no change all stays as it was.
  abbrev pub Watches : C → Option (List Text) → Aggregator S → Aggregator S → Type 0
  Watches client none a a' = a' ≡ a
  Watches client (some names) a a' =
      Leads (health client) sort sorts parse_duration range_meta cache laws reliable marshals
        all_marshal listener_ports range any_order names a a'

  abbrev pub Ends : Result E C → Aggregator S → Aggregator S → Type 0
  Ends (err e) a a' = a' ≡ a
  Ends (ok client) a a' = Watches client (last_new 0 none (rounds client)) a a'

  abbrev handles_all : C → Calls → Aggregator S → Run (Aggregator S)
  handles_all client =
      handle_all (health client) sort parse_duration range_meta cache marshals listener_ports range

  calls-Watches :
      (client : C) (calls : Calls) (last : Option (List Text)) (a : Aggregator S)
      → (last ≡ none → calls ≡ [])
      → ((names : List Text) → last ≡ some names → (d : List Text) → last_or d calls ≡ names)
      → (a' : Aggregator S) × (handles_all client calls a ≡ returns a') × Watches client last a a'
  unfolding handle_all
  calls-Watches client calls none a quiet ends = rw (quiet refl) (a, refl, refl)
  calls-Watches client [] (some names) a quiet ends =
      absurd (cc (ends names refl [], ends names refl ([] ∷ [])))
  calls-Watches client (first ∷ calls) (some names) a quiet ends = rw (← ends names refl []) (
      handle_all-Leads (health client) sort sorts parse_duration range_meta cache laws reliable
        marshals all_marshal listener_ports range any_order first calls a)

  -- Where messages can be marshalled, the cache takes snapshots, sort.Slice sorts and the client's
  -- answers on the services' health stay the same during the watch: with any strategy but
  -- `debounce` and `batch`, StartWatcher does not panic. If it gets no client, or its client's watch
  -- meets no answer with a new index, all stays as it was. Otherwise the aggregator has for the
  -- Consul loader the services that the client's health answers describe for the names of the last
  -- such answer, and the other loaders' as they were, and the reference snapshot has, in some order,
  -- the clusters of exactly those of them that have an instance and a route.
  pub watch_catalog_immediate :
      (addr strategy : Text) (a : Aggregator S)
      → strategy ≢ codes "debounce"
      → strategy ≢ codes "batch"
      → (a' : Aggregator S) × (watch_catalog send defaults make health rounds sort parse_duration
            range_meta cache marshals listener_ports range addr strategy a
          ≡ returns a')
        × Ends (new_client send defaults make addr) a a'
  unfolding watch_catalog start_watcher watch
  watch_catalog_immediate addr strategy a d b =
      elim (Result-cases (new_client send defaults make addr)) [
        | inr (e, failed) ↦ (a, rw (watch_catalog, failed) refl, rw failed refl)
        | inl (client, made) ↦
            let calls = changes_of 0 (rounds client) in
            let (a', runs, w) =
              calls-Watches client calls (last_new 0 none (rounds client)) a
                (changes_of-nil (rounds client))
                (λ names h d. last-changes_of (rounds client) names d h) in
            (
              a',
              rw (watch_catalog, made, start_watcher, new_watcher-immediate strategy d b) runs,
              rw made w,
            )
      ]
