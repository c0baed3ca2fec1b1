-- ===== src/Main/Wiring/Shared.antt =====
-- The manager, the callbacks and the server share the cache that main has made.
use flexds.Prelude.{ℕ, ◌≡◌, refl, ◌∙◌, ap, Bool, true, none, List, [], ◌∷◌, eqb, arith, inl, inr}
use flexds.Results.{Result}
use flexds.Results.Panics.{returns, ◌>>=◌, Run-cases}
use flexds.Common.Telemetry.{new_metrics, MetricOpts, init_metrics}
use flexds.Xds.Resources.{Message}
use flexds.Xds.Cache.{SnapshotCache}
use flexds.Xds.SnapshotManager.{World}
use flexds.Xds.Server.{on_stream_request}
use flexds.Discovery.Aggregator.{ServiceMap, Aggregator, new_aggregator, update_services}
use flexds.System.{Event, reports, requests, step, run}
use flexds.Main.{Flags, validate}
use flexds.Main.Wiring.{
  Ref, Store, write, Program, prepared, wire, prepare, step_through, run_through,
}

-- The state with the cache that the xDS server serves its nodes from.
abbrev pub served_from : {S : Type 0} → Program S → Aggregator S
served_from p = record {
  discovered_service_map = p.aggregator.discovered_service_map;
  world = record { version = p.version; cache_state = p.store p.server.cache; metrics = p.metrics };
}

abbrev pub fresh : {S : Type 0} → S → World S
fresh empty = record { version = 1; cache_state = empty; metrics = new_metrics }

write_self : {S : Type 0} (r : Ref) (s : S) (store : Store S) → write r s store r ≡ s
write_self r s store = rw eqb_refl
  where
    eqb_refl : eqb r r ≡ true
    eqb_refl = ground arith

-- All references lead to one cell.
abbrev linked : {S : Type 0} → Ref → List ℕ → Store S → Aggregator S → Program S
linked r ports store a = record {
  store = store;
  version = a.world.version;
  metrics = a.world.metrics;
  aggregator = record {
    discovered_service_map = a.discovered_service_map;
    snapshot_manager = record { cache = r; listener_ports = ports };
  };
  server = record { cache = r; callbacks = record { cache = r } };
}

abbrev at_cell : {S : Type 0} → Ref → Store S → Aggregator S → Aggregator S
at_cell r store a = record a { world = record a.world { cache_state = store r } }

module _ {S : Type 0} (cache : SnapshotCache S) (marshals : Message → Bool)
    (range : ServiceMap → ServiceMap) where
  run-linked :
      (r : Ref) (ports : List ℕ) (es : List Event) (store : Store S) (a : Aggregator S)
      → (run_through cache marshals range (linked r ports store a) es >>= λ p.
          returns (served_from p))
        ≡ run cache marshals ports range (at_cell r store a) es
  unfolding run_through step_through run step
  run-linked r ports [] store a = refl
  run-linked r ports (requests node ∷ es) store a =
      let s = (on_stream_request cache node (store r)).0 in
      run-linked r ports es (write r s store) a
      ∙ ap
          (λ t.
            run cache marshals ports range (record a { world = record a.world { cache_state = t } })
              es)
          (write_self r s store)
  run-linked r ports (reports loader services ∷ es) store a =
      elim (Run-cases
        (update_services cache marshals ports range loader services (at_cell r store a))) [
          | inl e ↦ rw e refl
          | inr (b, e) ↦ rw e (
              run-linked r ports es (write r b.world.cache_state store) b
              ∙ ap
                  (λ t.
                    run cache marshals ports range
                      (record b { world = record b.world { cache_state = t } }) es)
                  (write_self r b.world.cache_state store))
        ]

  -- Where the flags are accepted and the metrics can be registered, main makes its parts, in
  -- whatever store and behind whatever reference: any reports through the aggregator's manager and
  -- requests through the server's callbacks then leave what one shared cache would have, in the
  -- cell that the xDS server serves its nodes from, with the same map, version and metrics, or
  -- panic like it. The listener ports are the flag's.
  pub run_through-prepare :
      {R E : Type 0} (register : MetricOpts → R → Result E R) (empty : S) (store : Store S)
      (free : Ref) (f : Flags) (r r' : R) (es : List Event)
      → validate f ≡ none
      → init_metrics register r ≡ returns r'
      → (p : Program S) × (prepare register empty store free f r ≡ returns (prepared p, r'))
        × ((run_through cache marshals range p es >>= λ p'. returns (served_from p'))
            ≡ run cache marshals f.listener_ports range (new_aggregator (fresh empty)) es)
  unfolding prepare
  run_through-prepare register empty store free f r r' es accepted registered = (
    wire empty store free f.listener_ports,
    rw (prepare, accepted, registered) refl,
    run-linked free f.listener_ports es (write free empty store) (new_aggregator (fresh empty))
        ∙ ap (λ t. run cache marshals f.listener_ports range (new_aggregator (fresh t)) es)
            (write_self free empty store),
  )
