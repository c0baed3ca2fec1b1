-- ===== src/Xds/Server/Requests.antt =====
-- A node's first request, and one that comes too early.
use flexds.Prelude.{Bool, ℕ, ◌≡◌, ◌≢◌, refl, true, none, some, List, inl}
use flexds.Results.{ok, err}
use flexds.Results.Panics.{returns}
use flexds.Strings.{Text}
use flexds.Common.ServiceModel.{DiscoveredService}
use flexds.Xds.Resources.{Message, Snapshot}
use flexds.Xds.Clusters.Served.{served}
use flexds.Xds.Cache.{Error, SnapshotCache, CacheLaws, IsReliable}
use flexds.Xds.SnapshotManager.{World, reference_key, snapshot_of, build_and_push}
use flexds.Xds.SnapshotManager.Push.{resources_of, build_and_push_reaches}
use flexds.Xds.Server.{on_stream_request}

module _ {S : Type 0} (cache : SnapshotCache S) where
  -- Without a reference snapshot a request is refused with the cache's error, and nothing changes.
  pub on_stream_request_early :
      (node : Text) (s : S) (e : Error)
      → cache.get_snapshot reference_key s ≡ err e
      → on_stream_request cache node s ≡ (s, some e)
  unfolding on_stream_request
  on_stream_request_early node s e h = rw h

  module _ (laws : CacheLaws cache) (reliable : IsReliable cache) where
    -- Where the cache takes snapshots and has a reference snapshot, a request returns no error and
    -- gives it to the node; no other node's snapshot changes.
    on_stream_request_assigns :
        (node other : Text) (s : S) (snap : Snapshot)
        → cache.get_snapshot reference_key s ≡ ok snap
        → node ≢ other
        → ((on_stream_request cache node s).1 ≡ none)
          × (cache.get_snapshot node (on_stream_request cache node s).0 ≡ ok snap)
          × (cache.get_snapshot other (on_stream_request cache node s).0
              ≡ cache.get_snapshot other s)
    unfolding on_stream_request
    on_stream_request_assigns node other s snap h ne = rw h (
      reliable.sets node snap s,
      laws.get-set_self node snap s (reliable.sets node snap s),
      laws.get-set_other node other snap s ne,
    )

    module _ (marshals : Message → Bool) (all_marshal : (m : Message) → marshals m ≡ true) where
      -- Where messages can be marshalled and the cache takes snapshots: a node that connects after
      -- a push is given the snapshot of that push, whether or not the cache knew it before.
      on_stream_request_after_push :
          (listener_ports : List ℕ) (services : List DiscoveredService) (w : World S) (node : Text)
          → (w' : World S) × (build_and_push cache marshals listener_ports services w ≡ returns w')
            × ((on_stream_request cache node w'.cache_state).1 ≡ none)
            × (cache.get_snapshot node (on_stream_request cache node w'.cache_state).0
                ≡ ok (snapshot_of cache w (resources_of listener_ports (served services))))
      unfolding on_stream_request
      on_stream_request_after_push listener_ports services w node =
          let (w', run, held) =
            build_and_push_reaches cache laws reliable marshals all_marshal listener_ports services
              w reference_key (inl refl) in
          let snap = snapshot_of cache w (resources_of listener_ports (served services)) in
          let free = reliable.sets node snap w'.cache_state in
          (w', run, rw held free, rw held (laws.get-set_self node snap w'.cache_state free))
