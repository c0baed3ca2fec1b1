-- ===== src/System/Program.antt =====
-- What happens to the program while it runs: the loaders' own events, with what they meet outside.
use flexds.Prelude.{ℕ, ℤ, Bool, Option, List, [], ◌∷◌, ◌++◌, map}
use flexds.Results.{Result, ok, err}
use flexds.Results.Panics.{Run, returns, panics, ◌>>=◌}
use flexds.Strings.{Text, codes}
use flexds.Dict.{Dict}
use flexds.Common.ServiceModel.{DiscoveredService}
use flexds.Xds.Resources.{Message}
use flexds.Xds.Cache.{SnapshotCache}
use flexds.Xds.Server.{on_stream_request}
use flexds.Discovery.Aggregator.{ServiceMap, Aggregator}
use flexds.Discovery.Consul.Loader.{Entry, discover, handle}
use flexds.Discovery.Yaml.{Service, to_service, load_services}
use flexds.Discovery.Marathon.{App}
use flexds.Discovery.Marathon.Conversion.{all_converted}
use flexds.Discovery.Marathon.Request.{LoadError}
use flexds.Discovery.Marathon.Load.{load_apps}
use flexds.System.{Event, reports, requests}

-- The Consul watcher calls its handler, with what the health queries answer then; the YAML file is
-- loaded; Marathon is polled; or a node sends a request.
pub data Happening (E : Type 0) : Type 0 where
  consul_changed : List Text → (health : Text → Result E (List Entry)) → Happening E
  file_loaded : Result E (List Service) → Happening E
  apps_polled : Result (LoadError E) (List App) → Happening E
  node_requests : Text → Happening E

abbrev pub found_of : Run (List DiscoveredService) → List DiscoveredService
found_of (returns services) = services
found_of panics = []

module _ {E : Type 0} (sort : (Entry → Entry → Bool) → List Entry → List Entry)
    (parse_duration : Text → Option ℤ) (range_meta : Dict Text → Dict Text) where
  -- What it reports, or requests: a file or a poll with an error reports nothing.
  abbrev pub event_of : Happening E → List Event
  event_of (consul_changed names health) =
      reports (codes "consul_loader")
        (found_of (discover health sort parse_duration range_meta names))
      ∷ []
  event_of (file_loaded (err e)) = []
  event_of (file_loaded (ok services)) =
      reports (codes "yaml_loader") (map to_service services) ∷ []
  event_of (apps_polled (err e)) = []
  event_of (apps_polled (ok apps)) = reports (codes "marathon_loader") (all_converted apps) ∷ []
  event_of (node_requests node) = requests node ∷ []

  abbrev pub events_of : List (Happening E) → List Event
  events_of [] = []
  events_of (h ∷ hs) = event_of h ++ events_of hs

  module _ {S : Type 0} (cache : SnapshotCache S) (marshals : Message → Bool)
      (listener_ports : List ℕ) (range : ServiceMap → ServiceMap) where
    -- (The errors of a load decide whether the program goes on, which is main's part.)
    unfoldable pub happen : Aggregator S → Happening E → Run (Aggregator S)
    unfolding handle load_services load_apps on_stream_request
    happen a (consul_changed names health) =
        handle health sort parse_duration range_meta cache marshals listener_ports range names a
    happen a (file_loaded loaded) =
        load_services cache marshals listener_ports range loaded a >>= λ r. returns r.0
    happen a (apps_polled fetched) =
        load_apps cache marshals listener_ports range fetched a >>= λ r. returns r.0
    happen a (node_requests node) =
        let w = a.world in
        returns (record a {
          world = record w { cache_state = (on_stream_request cache node w.cache_state).0 };
        })

    unfoldable pub run_program : Aggregator S → List (Happening E) → Run (Aggregator S)
    unfolding happen
    run_program a [] = returns a
    run_program a (h ∷ hs) = happen a h >>= λ a'. run_program a' hs
