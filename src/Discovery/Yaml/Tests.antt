-- ===== src/Discovery/Yaml/Tests.antt =====
-- A file with one service.
use mathlib.Core.List.{Perm}
use mathlib.Core.List.Perm
use flexds.Prelude.{if◌then◌else◌, pos, ◌≡◌, refl, true, false, Option, List, [], ◌∷◌}
use flexds.Results.{Result, ok, err}
use flexds.Results.Panics.{returns}
use flexds.Strings.{Text, codes, ◌==◌}
use flexds.Xds.Cache.{MemoryState, memory_cache, memory_cache-CacheLaws, memory_cache-IsReliable}
use flexds.Xds.Samples.{any_message, start}
use flexds.Discovery.Aggregator.{ServiceMap, Aggregator, new_aggregator}
use flexds.Discovery.Yaml.{Route, Service, load_config, contents}
use flexds.Discovery.Yaml.Loaded.{Loads, load_config-Loads}

abbrev by_path : Route
by_path = record {
  match_type = codes "path";
  path_prefix = codes "/shop";
  prefix_rewrite = [];
  regex_rewrite = [];
  regex_replacement = [];
  header_name = [];
  header_value = [];
  http2 = false;
  tls = true;
}

abbrev shop : Service
shop = record {
  name = codes "shop";
  instances = record { host = codes "shop.local"; port = pos 443 } ∷ [];
  routes = by_path ∷ by_path ∷ [];
  http2 = false;
  tls = true;
  dns_refresh_rate = pos 0;
}

read_file : Text → Result Text Text
read_file path = if path == codes "a.yaml" then ok (codes "shop") else err (codes "no such file")

unmarshal : Text → Result Text (List Service)
unmarshal raw = ok (shop ∷ [])

as_is : ServiceMap → ServiceMap
as_is m = m

as_is-perm : (m : ServiceMap) → Perm (as_is m) m
unfolding as_is
as_is-perm m = Perm.refl m

load_config-Loads_example :
    (r : Aggregator MemoryState × Option Text) × (load_config memory_cache any_message
        (8080 ∷ [])
        as_is
        read_file
        unmarshal
        (codes "a.yaml")
        (new_aggregator start)
      ≡ returns r)
    × Loads memory_cache (new_aggregator start) (contents read_file unmarshal (codes "a.yaml")) r
load_config-Loads_example =
    load_config-Loads memory_cache memory_cache-CacheLaws memory_cache-IsReliable any_message
      (λ m. refl) (8080 ∷ []) as_is as_is-perm read_file unmarshal (codes "a.yaml")
      (new_aggregator start) tt
