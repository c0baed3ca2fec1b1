-- ===== src/Xds/Server.antt =====
-- internal/xds/server.go: the callbacks that the xDS server runs on its streams. The others than
-- `on_stream_request` only log; the opening ones return no error.
pub mod Callbacks
pub mod Requests
pub mod Setup
pub mod Streams
mod Tests
use flexds.Prelude.{ℕ, Option, none, some}
use flexds.Results.{Result, ok, err}
use flexds.Strings.{Text}
use flexds.Xds.Resources.{Snapshot}
use flexds.Xds.Cache.{Error, SnapshotCache}
use flexds.Xds.SnapshotManager.{reference_key}

module _ {S : Type 0} (cache : SnapshotCache S) where
  -- What OnStreamRequest does with the reference snapshot that it has got, or not.
  abbrev assign : Text → Result Error Snapshot → S → S × Option Error
  assign node (err e) s = (s, some e)
  assign node (ok snap) s = cache.set_snapshot node snap s

  -- `node` is req.Node.Id.
  unfoldable pub on_stream_request : Text → S → S × Option Error
  on_stream_request node s = assign node (cache.get_snapshot reference_key s) s

-- OnStreamOpen and OnDeltaStreamOpen
abbrev pub on_stream_open : ℕ → Text → Option Error
on_stream_open stream_id type_url = none

-- OnStreamDeltaRequest
abbrev pub on_stream_delta_request : ℕ → Text → Option Error
on_stream_delta_request stream_id node = none
