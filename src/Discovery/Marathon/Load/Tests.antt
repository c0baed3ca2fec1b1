-- ===== src/Discovery/Marathon/Load/Tests.antt =====
-- One app, one failed request, and the loop.
use mathlib.Core.List.Perm
use flexds.Prelude.{ℕ, ◌≡◌, ◌≢◌, refl, Option, none, some, List, [], ◌∷◌}
use flexds.Results.{Result, ok, err}
use flexds.Results.Panics.{returns}
use flexds.Strings.{Text, codes}
use flexds.Xds.Cache.{MemoryState, memory_cache, memory_cache-CacheLaws, memory_cache-IsReliable}
use flexds.Xds.Samples.{any_message, start}
use flexds.Discovery.Aggregator.{ServiceMap, Aggregator, new_aggregator}
use flexds.Discovery.Marathon.{App, healthy_tasks}
use flexds.Discovery.Marathon.Request.{LoadError, bad_status, Outside, Config, fetch}
use flexds.Discovery.Marathon.Load.{tick, returned, load_apps, load_config}
use flexds.Discovery.Marathon.Load.Polled.{Leaves, load_config-Leaves}
use flexds.Discovery.Marathon.Load.Polling.{Loads, load_apps-Loads, load_config_waits}

abbrev empty_app : App
empty_app = record { id = codes "/a"; ports = []; port_definitions = []; tasks = []; labels = [] }

abbrev outside : ℕ → Outside Text
outside status = record {
  new_request = λ url. none;
  read_file = λ path. err (codes "no such file");
  send = λ request. ok (record { status_code = status; body = ok (codes "apps") });
  unmarshal = λ body. ok (empty_app ∷ []);
}

abbrev config : Config
config = record { url = codes "http://localhost:8080"; credentials_file_path = [] }

abbrev as_is : ServiceMap → ServiceMap
as_is m = m

abbrev apps : Result (LoadError Text) (List App)
apps = ok (empty_app ∷ [])

fetches : fetch (outside 200) config ≡ apps
unfolding fetch
fetches = refl

load_apps-Loads_example :
    (r : Aggregator MemoryState × Option (LoadError Text)) × (load_apps memory_cache any_message
        (8080 ∷ [])
        as_is
        apps
        (new_aggregator start)
      ≡ returns r)
    × Loads memory_cache (new_aggregator start) apps r
unfolding healthy_tasks
load_apps-Loads_example =
    load_apps-Loads memory_cache any_message (8080 ∷ []) as_is memory_cache-CacheLaws
      memory_cache-IsReliable (λ m. refl) (λ m. Perm.refl m) apps (new_aggregator start) refl tt

keeps_polling :
    load_config {E = Text} memory_cache any_message
      (8080 ∷ [])
      as_is
      config
      (tick (outside 200) ∷ [])
      (new_aggregator start)
    ≢ returns (new_aggregator start, returned none)
keeps_polling =
    load_config_waits memory_cache any_message (8080 ∷ []) as_is config (tick (outside 200) ∷ [])
      (new_aggregator start) (new_aggregator start) (tt, tt)

-- The second poll is answered with an error, and the third one is not made.
load_config-Leaves_example :
    (a' : Aggregator MemoryState) × (load_config memory_cache any_message
        (8080 ∷ [])
        as_is
        config
        (tick (outside 200) ∷ tick (outside 503) ∷ tick (outside 200) ∷ [])
        (new_aggregator start)
      ≡ returns (a', returned (some (bad_status 503))))
    × Leaves memory_cache (some (empty_app ∷ [])) (new_aggregator start) a'
unfolding fetch healthy_tasks
load_config-Leaves_example =
    load_config-Leaves config memory_cache memory_cache-CacheLaws memory_cache-IsReliable
      any_message (λ m. refl) (8080 ∷ []) as_is (λ m. Perm.refl m)
      (tick (outside 200) ∷ tick (outside 503) ∷ tick (outside 200) ∷ []) (new_aggregator start)
      (refl, (tt, (refl, tt)))
