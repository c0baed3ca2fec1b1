-- ===== src/System.antt =====
-- The loaders, the aggregator, the snapshot manager and the callbacks of the xDS server together:
-- what happens to them, one event after the other.
pub mod Interleaved
pub mod Offered
pub mod Program
pub mod Refines
mod Tests
use flexds.Prelude.{ℕ, Bool, Option, none, some, List, [], ◌∷◌, if◌then◌else◌}
use flexds.Results.Panics.{Run, returns, ◌>>=◌}
use flexds.Strings.{Text, ◌==◌}
use flexds.Common.ServiceModel.{DiscoveredService}
use flexds.Xds.Resources.{Message}
use flexds.Xds.Cache.{SnapshotCache}
use flexds.Xds.Server.{on_stream_request}
use flexds.Discovery.Aggregator.{ServiceMap, Aggregator, update_services}

-- A loader reports its services, or a node sends a request.
pub data Event : Type 0 where
  reports : Text → List DiscoveredService → Event
  requests : Text → Event

module _ {S : Type 0} (cache : SnapshotCache S) (marshals : Message → Bool)
    (listener_ports : List ℕ) (range : ServiceMap → ServiceMap) where
  unfoldable pub step : Aggregator S → Event → Run (Aggregator S)
  unfolding update_services
  step a (reports loader services) =
      update_services cache marshals listener_ports range loader services a
  step a (requests node) =
      let w = a.world in
      returns (record a {
        world = record w { cache_state = (on_stream_request cache node w.cache_state).0 };
      })

  unfoldable pub run : Aggregator S → List Event → Run (Aggregator S)
  unfolding step
  run a [] = returns a
  run a (e ∷ es) = step a e >>= λ a'. run a' es

-- What a loader has reported last, where `before` is what it had reported before the events.
unfoldable pub last_report :
    Text → Option (List DiscoveredService) → List Event → Option (List DiscoveredService)
unfolding ◌==◌
last_report loader before [] = before
last_report loader before (requests node ∷ es) = last_report loader before es
last_report loader before (reports l services ∷ es) =
    last_report loader (if l == loader then some services else before) es
