-- ===== src/Main/Shutdown/Tests.antt =====
-- A shutdown while a client has a stream open, and one after it has closed it.
use flexds.Prelude.{◌≡◌, ◌⊎◌, ◌<◌, refl, true, false}
use flexds.Main.Shutdown.{
  Stage, Grpc, Serve, Consul, Waiter, Process, started, is_graceful, MainMove, ConsulMove,
  ServeMove, GrpcMove, by_main, by_consul, by_serve, by_grpc, by_listen, ListenMove, ClientMove,
  Runs,
}
use flexds.Main.Shutdown.Invariant.{unfinished, is_before, shutdown_never_graceful}

-- The signal has come, with one stream open.
abbrev connected : Process
connected = record {
  main = Stage.selecting;
  grpc = Grpc.stopping;
  serve = Serve.serving;
  streams = 1;
  admin_serves = true;
  consul = Consul.finished;
  group = 2;
  waiter = Waiter.waiting;
}

to_connected : Runs (started true) 6 connected
to_connected =
    Runs.own
      (Runs.own
        (Runs.own
          (Runs.client
            (Runs.own
              (Runs.own (Runs.own Runs.here refl (by_listen (ListenMove.listens refl))) refl
                (by_consul (ConsulMove.client_created refl)))
              refl (by_main (MainMove.loaded refl)))
            refl (ClientMove.opens refl refl))
          refl (by_main (MainMove.signalled refl)))
        refl (by_consul (ConsulMove.watch_ended refl refl)))
      refl (by_grpc (GrpcMove.sees_cancelled refl refl))

-- All have ended but the admin server, which is still waited for.
abbrev all_but_admin : Process
all_but_admin = record connected {
  grpc = Grpc.finished;
  serve = Serve.received;
  streams = 0;
  group = 1;
}

to_all_but_admin : Runs (started true) 9 all_but_admin
to_all_but_admin =
    Runs.own
      (Runs.own
        (Runs.own (Runs.client to_connected refl (ClientMove.closes 0 refl)) refl
          (by_grpc (GrpcMove.stopped refl refl)))
        refl (by_serve (ServeMove.serve_stopped refl refl)))
      refl (by_grpc (GrpcMove.serve_returned false refl refl))

shutdown_never_graceful_example :
    (1 ≡ unfinished all_but_admin)
    × (((is_before Stage.selecting ≡ false) ⊎ (0 < 1))
        × (¬ (
              (◌≡◌ {A = Stage} Stage.selecting Stage.selecting)
              × (Waiter.waiting ≡ Waiter.closed_done))
            × (is_graceful Stage.selecting ≡ false)))
shutdown_never_graceful_example = shutdown_never_graceful true to_all_but_admin
