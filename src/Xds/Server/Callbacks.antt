-- ===== src/Xds/Server/Callbacks.antt =====
-- internal/xds/server.go: all callbacks, with the pointers that they follow. A nil pointer is
-- `none`; following it stops the program. Log lines are left out, not what they read.
use flexds.Prelude.{
  ℕ, ◌≡◌, refl, Bool, true, false, ◌&&◌, Option, none, some, List, [], ◌∷◌, if◌then◌else◌,
}
use flexds.Results.Panics.{Run, returns, panics, ◌>>=◌}
use flexds.Strings.{Text}
use flexds.Xds.Cache.{Error, SnapshotCache}
use flexds.Xds.Server.{on_stream_request, on_stream_open, on_stream_delta_request}

-- A node by its ID, a response by its type URL. A stream has an ID; a request brings its `Node`.
pub data StreamEvent : Type 0 where
  opened : ℕ → Text → StreamEvent
  closed : ℕ → (node : Option Text) → StreamEvent
  request : ℕ → (node : Option Text) → StreamEvent
  response : ℕ → (node resp : Option Text) → StreamEvent
  delta_opened : ℕ → Text → StreamEvent
  delta_closed : ℕ → (node : Option Text) → StreamEvent
  delta_request : ℕ → (node : Option Text) → StreamEvent
  delta_response : ℕ → (node resp : Option Text) → StreamEvent

-- `node.Id`, or `resp.TypeUrl`
abbrev pub follow : Option Text → Run Text
follow none = panics
follow (some text) = returns text

module _ {S : Type 0} (cache : SnapshotCache S) where
  -- The callback for an event, with the error that it returns.
  unfoldable pub callback : StreamEvent → S → Run (S × Option Error)
  unfolding on_stream_request
  callback (opened stream_id type_url) s = returns (s, on_stream_open stream_id type_url)
  callback (closed stream_id node) s = do id ← follow node; returns (s, none)
  callback (request stream_id node) s = do id ← follow node; returns (on_stream_request cache id s)
  callback (response stream_id node none) s = do id ← follow node; returns (s, none)
  callback (response stream_id node (some resp)) s = do id ← follow node; returns (s, none)
  callback (delta_opened stream_id type_url) s = returns (s, on_stream_open stream_id type_url)
  callback (delta_closed stream_id node) s = do id ← follow node; returns (s, none)
  callback (delta_request stream_id node) s = do
    id ← follow node
    returns (s, on_stream_delta_request stream_id id)
  callback (delta_response stream_id node resp) s = do
    id ← follow node
    type_url ← follow resp
    returns (s, none)

  -- The callbacks for the events of all streams, in their order.
  unfoldable pub callbacks : List StreamEvent → S → Run S
  unfolding callback
  callbacks [] s = returns s
  callbacks (e ∷ events) s = do r ← callback e s; callbacks events r.0

  -- Stream requests, one after the other.
  abbrev pub serve : List Text → S → S
  serve [] s = s
  serve (node ∷ nodes) s = serve nodes (on_stream_request cache node s).0

abbrev pub is_some : Option Text → Bool
is_some none = false
is_some (some text) = true

-- Each event has the node that its callback reads; a delta response is there itself.
abbrev pub all_there : List StreamEvent → Bool
all_there [] = true
all_there (opened stream_id type_url ∷ events) = all_there events
all_there (closed stream_id node ∷ events) = is_some node && all_there events
all_there (request stream_id node ∷ events) = is_some node && all_there events
all_there (response stream_id node resp ∷ events) = is_some node && all_there events
all_there (delta_opened stream_id type_url ∷ events) = all_there events
all_there (delta_closed stream_id node ∷ events) = is_some node && all_there events
all_there (delta_request stream_id node ∷ events) = is_some node && all_there events
all_there (delta_response stream_id node resp ∷ events) =
    is_some node && (is_some resp && all_there events)

-- The nodes of the requests that are no delta requests.
abbrev pub requested : List StreamEvent → List Text
requested [] = []
requested (request stream_id (some node) ∷ events) = node ∷ requested events
requested (e ∷ events) = requested events

-- The callbacks on any events of any streams: they panic exactly if an event lacks the node that its
-- callback reads, or a delta response is nil. (A response that is nil is no such case.) Otherwise
-- they leave the cache as the stream requests of the nodes, in their order, leave it; what opens or
-- closes a stream, what is sent and delta requests change nothing.
pub callbacks_exact :
    {S : Type 0} (cache : SnapshotCache S) (events : List StreamEvent) (s : S)
    → callbacks cache events s
      ≡ (if all_there events then returns (serve cache (requested events) s) else panics)
unfolding callbacks
callbacks_exact cache [] s = refl
callbacks_exact cache (opened i t ∷ events) s = callbacks_exact cache events s
callbacks_exact cache (closed i none ∷ events) s = refl
callbacks_exact cache (closed i (some n) ∷ events) s = callbacks_exact cache events s
callbacks_exact cache (request i none ∷ events) s = refl
callbacks_exact cache (request i (some n) ∷ events) s =
    callbacks_exact cache events (on_stream_request cache n s).0
callbacks_exact cache (response i none none ∷ events) s = refl
callbacks_exact cache (response i none (some r) ∷ events) s = refl
callbacks_exact cache (response i (some n) none ∷ events) s = callbacks_exact cache events s
callbacks_exact cache (response i (some n) (some r) ∷ events) s = callbacks_exact cache events s
callbacks_exact cache (delta_opened i t ∷ events) s = callbacks_exact cache events s
callbacks_exact cache (delta_closed i none ∷ events) s = refl
callbacks_exact cache (delta_closed i (some n) ∷ events) s = callbacks_exact cache events s
callbacks_exact cache (delta_request i none ∷ events) s = refl
callbacks_exact cache (delta_request i (some n) ∷ events) s = callbacks_exact cache events s
callbacks_exact cache (delta_response i none r ∷ events) s = refl
callbacks_exact cache (delta_response i (some n) none ∷ events) s = refl
callbacks_exact cache (delta_response i (some n) (some r) ∷ events) s =
    callbacks_exact cache events s
