-- ===== src/Discovery/Aggregator.antt =====
-- internal/discovery/aggregator.go: the services of all loaders, pushed together.
pub mod Abstract
pub mod Interleaved
pub mod Order
pub mod Pushed
mod Tests
use flexds.Prelude.{ℕ, Bool, List, [], ◌∷◌, ◌++◌}
use flexds.Results.Panics.{Run, ◌>>=◌, returns}
use flexds.Strings.{Text}
use flexds.Dict.{Dict, insert}
use flexds.Common.ServiceModel.{DiscoveredService}
use flexds.Xds.Resources.{Message}
use flexds.Xds.Cache.{SnapshotCache}
use flexds.Xds.SnapshotManager.{World, build_and_push}

abbrev pub ServiceMap : Type 0
ServiceMap = Dict (List DiscoveredService)

-- The fields, with what the snapshot manager behind `snapshotManager` works on.
pub record Aggregator (S : Type 0) : Type 0 where
  pub discovered_service_map : ServiceMap
  pub world : World S

abbrev pub new_aggregator : {S : Type 0} → World S → Aggregator S
new_aggregator w = record { discovered_service_map = []; world = w }

-- The loop that appends the lists, over the entries in the order in which `range` meets them. (The
-- loop before it only sums up a capacity.)
unfoldable pub aggregate : ServiceMap → List DiscoveredService
aggregate [] = []
aggregate ((loader, services) ∷ m) = services ++ aggregate m

-- `range m` lists the entries of the map in the order in which the loop meets them.
module _ {S : Type 0} (cache : SnapshotCache S) (marshals : Message → Bool)
    (listener_ports : List ℕ) (range : ServiceMap → ServiceMap) where
  -- UpdateServices; its error is always nil.
  unfoldable pub update_services : Text → List DiscoveredService → Aggregator S → Run (Aggregator S)
  unfolding aggregate insert
  update_services loader services a =
      let m = insert loader services a.discovered_service_map in
      build_and_push cache marshals listener_ports (aggregate (range m)) a.world >>= λ w.
      returns (record { discovered_service_map = m; world = w })
