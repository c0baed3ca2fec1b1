-- ===== src/Main/Wiring/Tests.antt =====
-- The program's parts over one cache, and the set-up of its servers.
use mathlib.Core.List.{reverse}
use flexds.Prelude.{pos, ◌≡◌, refl, true, List, [], ◌∷◌, any, if◌then◌else◌}
use flexds.Results.{Result, ok, err}
use flexds.Results.Panics.{returns, panics, ◌>>=◌}
use flexds.Strings.{Text, codes, itoa, ◌==◌}
use flexds.Common.Telemetry.{MetricOpts, init_metrics}
use flexds.Xds.Samples.{web, any_message}
use flexds.Xds.Cache.{MemoryState, memory_cache}
use flexds.Xds.Server.Setup.{all_services, exits, ready, set_up}
use flexds.Discovery.Aggregator.{new_aggregator}
use flexds.System.{Event, reports, requests, run}
use flexds.Main.{Flags, default_flags, validate, no_discovery}
use flexds.Main.Admin.{admin}
use flexds.Main.Wiring.{Program, refused, prepared, prepare, run_through}
use flexds.Main.Wiring.Shared.{served_from, fresh, run_through-prepare}

-- A registry is the names in it; a name is taken once.
abbrev register : MetricOpts → List Text → Result Text (List Text)
register metric names =
    if any (λ name. name == metric.name) names
    then err (codes "duplicate metrics collector registration attempted")
    else ok (metric.name ∷ names)

-- A second InitMetrics would stop the program.
registered_twice : (init_metrics register [] >>= λ r. init_metrics register r) ≡ panics
unfolding init_metrics ◌==◌
registered_twice = refl

abbrev both : List Text
both = codes "flexds_services_discovered" ∷ codes "flexds_snapshots_pushed_total" ∷ []

abbrev empty : MemoryState
empty = record { snapshots = []; streams = codes "ingress" ∷ [] }

abbrev consul_flags : Flags
consul_flags = record default_flags { consul_discovery = true; listener_ports = 18080 ∷ 9000 ∷ [] }

no_loader :
    prepare register empty (λ r. empty) 3 default_flags [] ≡ returns (refused no_discovery, [])
unfolding prepare
no_loader = refl

abbrev events : List Event
events = reports (codes "consul_loader") (web ∷ []) ∷ requests (codes "edge") ∷ []

run_through-prepare_example :
    (p : Program MemoryState) × (prepare register empty (λ r. empty) 3 consul_flags []
      ≡ returns (prepared p, both))
    × ((run_through memory_cache any_message reverse p events >>= λ p'. returns (served_from p'))
        ≡ run memory_cache any_message
            (18080 ∷ 9000 ∷ [])
            reverse
            (new_aggregator (fresh empty))
            events)
unfolding init_metrics ◌==◌ validate
run_through-prepare_example =
    run_through-prepare memory_cache any_message reverse register empty (λ r. empty) 3 consul_flags
      [] both events refl refl

-- A gRPC server is the services that it has; the library stops the program on a second registration.
abbrev listens : Text → Text → Result Text Text
listens network address = if address == codes ":18000" then ok address else err (codes "refused")

all_registered :
    set_up listens (λ options. []) (λ s g. returns (s ∷ g)) default_flags.ads_port
    ≡ returns (ready (codes ":18000") (reverse all_services))
unfolding set_up itoa ◌==◌
all_registered = refl

port_taken : set_up listens (λ options. []) (λ s g. returns (s ∷ g)) (pos 80) ≡ returns exits
unfolding set_up itoa ◌==◌
port_taken = refl

admin_default : (admin default_flags.admin_port).addr ≡ codes ":19005"
unfolding itoa
admin_default = refl
