-- ===== src/Main/Tests.antt =====
-- Flags as given on a command line.
use flexds.Prelude.{false, ◌≡◌, ◌≢◌, ◌⊎◌, refl, true, none, some, List, [], ◌∷◌}
use flexds.Results.{Result, ok, err}
use flexds.Results.Panics.{returns}
use flexds.Strings.{Text, codes}
use flexds.Xds.Cache.{memory_cache}
use flexds.Xds.Samples.{any_message, start}
use flexds.Discovery.Aggregator.{new_aggregator}
use flexds.Discovery.Yaml.{Service}
use flexds.Discovery.Marathon.Request.{Outside}
use flexds.Discovery.Marathon.Load.{tick}
use flexds.Main.{Flags, default_flags, validate, no_yaml_file, awaits_signal, start_up}
use flexds.Main.Startup.{start_up_marathon}
use flexds.Main.Shutdown.{
  Stage, Grpc, Serve, Process, started, by_listen, by_admin, ListenMove, AdminMove, ClientMove,
}
use flexds.Main.Shutdown.Loads.{Goes, Goes-NeverWaits}

abbrev marathon_only : Flags
marathon_only = record default_flags { marathon_discovery = true }

file_missing : validate (record marathon_only { yaml_discovery = true }) ≡ some no_yaml_file
unfolding validate
file_missing = refl

abbrev no_file : Text → Result Text Text
no_file path = err (codes "no such file")

abbrev no_services : Text → Result Text (List Service)
no_services raw = ok []

abbrev outside : Outside Text
outside = record {
  new_request = λ url. none;
  read_file = no_file;
  send = λ request. ok (record { status_code = 200; body = ok [] });
  unmarshal = λ body. ok [];
}

-- A client's stream is open, and the admin server fails.
abbrev failed : Process
failed = record (started false) {
  main = Stage.crashed;
  grpc = Grpc.selecting;
  serve = Serve.serving;
  streams = 1;
}

to_failed :
    Goes memory_cache any_message
      (8080 ∷ [])
      (λ m. m)
      no_file
      no_services
      marathon_only
      start
      failed
to_failed =
    Goes.moves
      (Goes.client (Goes.moves Goes.begins refl (by_listen (ListenMove.listens refl)) tt)
        (ClientMove.opens refl refl))
      refl (by_admin (AdminMove.server_failed refl)) tt

Goes-NeverWaits_example :
    (◌≡◌ {A = Stage} Stage.crashed Stage.loading) ⊎ (◌≡◌ {A = Stage} Stage.crashed Stage.crashed)
Goes-NeverWaits_example =
    Goes-NeverWaits memory_cache any_message (8080 ∷ []) (λ m. m) no_file no_services marathon_only
      start refl to_failed

-- A load without apps goes on.
still_polls :
    start_up memory_cache any_message
      (8080 ∷ [])
      (λ m. m)
      no_file
      no_services
      marathon_only
      (tick outside ∷ [])
      start
    ≢ returns (new_aggregator start, awaits_signal)
still_polls =
    start_up_marathon memory_cache any_message (8080 ∷ []) (λ m. m) no_file no_services
      marathon_only (tick outside ∷ []) start (new_aggregator start) refl (tt, tt)
