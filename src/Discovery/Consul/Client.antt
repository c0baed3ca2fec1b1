-- ===== src/Discovery/Consul/Client.antt =====
-- internal/discovery/consul/consul_loader.go: the HTTP transport of the Consul client, the client's
-- configuration, and StartWatcher with the client that it makes. The client itself is Consul's
-- library: what it is made from, and what it answers, are parameters.
pub mod Watches
use flexds.Prelude.{
  ℕ, ℤ, ◌≡◌, refl, Bool, true, false, ◌||◌, Option, some, List, [], ◌∷◌, if◌then◌else◌, arith,
}
use flexds.Results.{Result, ok, err}
use flexds.Results.Panics.{Run, returns}
use flexds.Strings.{Text, codes, ◌==◌}
use flexds.Dict.{Dict, lookup, insert}
use flexds.Dict.Laws.{lookup-insert}
use flexds.Xds.Resources.{Message}
use flexds.Xds.Cache.{SnapshotCache}
use flexds.Discovery.Aggregator.{ServiceMap, Aggregator}
use flexds.Discovery.Consul.Watcher.{Round}
use flexds.Discovery.Consul.Loader.{Entry, start_watcher}

-- What the transport touches of an http.Request: its header, by canonical names.
pub record HttpRequest : Type 0 where
  pub url : Text
  pub header : Dict (List Text)

-- req.Header.Set
abbrev pub set_header : Text → Text → HttpRequest → HttpRequest
set_header name value req = record req { header = insert name (value ∷ []) req.header }

abbrev pub json : Text
json = codes "application/json"

-- The request that HeaderRoundTripper passes on.
abbrev pub with_headers : HttpRequest → HttpRequest
with_headers req = set_header (codes "Accept") json (set_header (codes "Content-Type") json req)

-- HeaderRoundTripper.RoundTrip over the transport `rt`.
abbrev pub round_trip : {A : Type 0} → (HttpRequest → A) → HttpRequest → A
round_trip rt req = rt (with_headers req)

-- Both headers are set, to one value each, and the others stay as they are.
lookup-with_headers :
    (name : Text) (req : HttpRequest)
    → lookup name (with_headers req).header ≡ (
        if (codes "Accept" == name) || (codes "Content-Type" == name)
        then some (json ∷ [])
        else lookup name req.header)
lookup-with_headers name req =
    rw
      (
        lookup-insert (codes "Accept") name (json ∷ [])
            (insert (codes "Content-Type") (json ∷ []) req.header),
        lookup-insert (codes "Content-Type") name (json ∷ []) req.header,
      )
      (either (codes "Accept" == name) (codes "Content-Type" == name))
  where
    either :
        (a b : Bool)
        → (if a then some (json ∷ []) else if b then some (json ∷ []) else lookup name req.header)
          ≡ (if a || b then some (json ∷ []) else lookup name req.header)
    either true b = refl
    either false b = refl

-- consulapi.Config, as far as NewClient sets it: `D` is what DefaultConfig leaves otherwise, and `A`
-- an answer to a request.
pub record ClientConfig (A D : Type 0) : Type 0 where
  pub address : Text
  pub transport : HttpRequest → A
  pub defaults : D

-- `send` is http.DefaultTransport, `make` consulapi.NewClient.
module _ {A D C E : Type 0} (send : HttpRequest → A) (defaults : D)
    (make : ClientConfig A D → Result E C) where
  abbrev pub new_client : Text → Result E C
  new_client addr =
      make (record { address = addr; transport = round_trip send; defaults = defaults })

  -- `health client` are the client's answers for a service, `rounds client` what the watch meets.
  module _ (health : C → Text → Result E (List Entry)) (rounds : C → List Round)
      (sort : (Entry → Entry → Bool) → List Entry → List Entry) (parse_duration : Text → Option ℤ)
      (range_meta : Dict Text → Dict Text) {S : Type 0} (cache : SnapshotCache S)
      (marshals : Message → Bool) (listener_ports : List ℕ) (range : ServiceMap → ServiceMap) where
    -- StartWatcher, whole: without a client it only logs the error.
    unfoldable pub watch_catalog : Text → Text → Aggregator S → Run (Aggregator S)
    unfolding start_watcher
    watch_catalog addr strategy a = elim (new_client addr) [
      | err e ↦ returns a
      | ok client ↦
          start_watcher (health client) sort parse_duration range_meta cache marshals listener_ports
            range strategy (rounds client) a
    ]
