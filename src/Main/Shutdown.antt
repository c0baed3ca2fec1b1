-- ===== src/Main/Shutdown.antt =====
-- cmd/flexds/main.go from the start of the goroutines on, and RunGRPC of internal/xds/server.go:
-- where each goroutine of the program stands, and the steps that it can take. A step has what the
-- code waits for as a premise. Of the packages called it takes what they document:
-- ListenAndServe ends by Shutdown or with another error, GracefulStop lets no stream open, returns
-- when all are closed, and then Serve returns.
pub mod Invariant
pub mod Loads
mod Tests
use flexds.Prelude.{ℕ, suc, ◌+◌, ◌-◌, ◌≡◌, ◌≢◌, Bool, true, false}

-- Where main stands. Behind its select it is known whether `done` was what ended it.
pub data Stage : Type 0 where
  loading : Stage
  awaits_signal : Stage
  selecting : Stage
  closing : (graceful : Bool) → Stage
  returned : (graceful : Bool) → Stage
  crashed : Stage  -- os.Exit(1), by whichever goroutine

pub data Grpc : Type 0 where
  listening : Grpc
  selecting : Grpc
  stopping : Grpc  -- in GracefulStop
  draining : Grpc  -- before <-serveErr
  finished : Grpc

-- The goroutine that serves, and its channel.
pub data Serve : Type 0 where
  unstarted : Serve
  serving : Serve
  sent : (failed : Bool) → Serve
  received : Serve

pub data Consul : Type 0 where
  creating : Consul
  watching : Consul
  finished : Consul

-- The goroutine that waits for the others.
pub data Waiter : Type 0 where
  unstarted : Waiter
  waiting : Waiter
  closed_done : Waiter

pub record Process : Type 0 where
  pub main : Stage
  pub grpc : Grpc
  pub serve : Serve
  pub streams : ℕ  -- open on the gRPC server
  pub admin_serves : Bool
  pub consul : Consul
  pub group : ℕ  -- the counter of `wg`
  pub waiter : Waiter

-- All goroutines have been started, that of Consul where its discovery is on.
abbrev pub started : Bool → Process
started consul_discovery = record {
  main = Stage.loading;
  grpc = Grpc.listening;
  serve = Serve.unstarted;
  streams = 0;
  admin_serves = true;
  consul = elim consul_discovery [ true ↦ Consul.creating | false ↦ Consul.finished ];
  group = elim consul_discovery [ true ↦ 3 | false ↦ 2 ];
  waiter = Waiter.unstarted;
}

-- The context that main cancels behind the signal.
abbrev pub is_cancelled : Stage → Bool
is_cancelled Stage.loading = false
is_cancelled Stage.awaits_signal = false
is_cancelled Stage.selecting = true
is_cancelled (Stage.closing graceful) = true
is_cancelled (Stage.returned graceful) = true
is_cancelled Stage.crashed = true

-- main has called admin.Shutdown.
abbrev pub is_closing : Stage → Bool
is_closing (Stage.closing graceful) = true
is_closing (Stage.returned graceful) = true
is_closing main = false

abbrev pub has_ended : Stage → Bool
has_ended (Stage.returned graceful) = true
has_ended Stage.crashed = true
has_ended main = false

-- "all services stopped gracefully" has been logged.
abbrev pub is_graceful : Stage → Bool
is_graceful (Stage.closing graceful) = graceful
is_graceful (Stage.returned graceful) = graceful
is_graceful main = false

abbrev crash : Process → Process
crash p = record p { main = Stage.crashed }

pub data MainMove (p : Process) : Process → Type 0 where
  loaded : p.main ≡ Stage.loading → MainMove p (record p { main = Stage.awaits_signal })
  load_failed : p.main ≡ Stage.loading → MainMove p (crash p)
  signalled :
      p.main ≡ Stage.awaits_signal
      → MainMove p (record p { main = Stage.selecting; waiter = Waiter.waiting })
  done :
      p.main ≡ Stage.selecting
      → p.waiter ≡ Waiter.closed_done
      → MainMove p (record p { main = Stage.closing true })
  timed_out : p.main ≡ Stage.selecting → MainMove p (record p { main = Stage.closing false })
  shut_down :
      (graceful : Bool)
      → p.main ≡ Stage.closing graceful
      → MainMove p (record p { main = Stage.returned graceful })

pub data WaiterMove (p : Process) : Process → Type 0 where
  waited :
      p.waiter ≡ Waiter.waiting
      → p.group ≡ 0
      → WaiterMove p (record p { waiter = Waiter.closed_done })

pub data AdminMove (p : Process) : Process → Type 0 where
  server_closed :
      p.admin_serves ≡ true
      → is_closing p.main ≡ true
      → AdminMove p (record p { admin_serves = false; group = p.group - 1 })
  server_failed : p.admin_serves ≡ true → AdminMove p (crash p)

pub data ConsulMove (p : Process) : Process → Type 0 where
  client_failed :
      p.consul ≡ Consul.creating
      → ConsulMove p (record p { consul = Consul.finished; group = p.group - 1 })
  client_created : p.consul ≡ Consul.creating → ConsulMove p (record p { consul = Consul.watching })
  watch_ended :
      p.consul ≡ Consul.watching
      → is_cancelled p.main ≡ true
      → ConsulMove p (record p { consul = Consul.finished; group = p.group - 1 })

pub data ServeMove (p : Process) : Process → Type 0 where
  serve_failed : p.serve ≡ Serve.serving → ServeMove p (record p { serve = Serve.sent true })
  serve_stopped :
      p.serve ≡ Serve.serving
      → p.grpc ≡ Grpc.draining
      → ServeMove p (record p { serve = Serve.sent false })

-- net.Listen, behind which the server is set up and served.
pub data ListenMove (p : Process) : Process → Type 0 where
  listen_failed : p.grpc ≡ Grpc.listening → ListenMove p (crash p)
  listens :
      p.grpc ≡ Grpc.listening
      → ListenMove p (record p { grpc = Grpc.selecting; serve = Serve.serving })

pub data GrpcMove (p : Process) : Process → Type 0 where
  sees_cancelled :
      p.grpc ≡ Grpc.selecting
      → is_cancelled p.main ≡ true
      → GrpcMove p (record p { grpc = Grpc.stopping })
  sees_serve_error :
      (failed : Bool) → p.grpc ≡ Grpc.selecting → p.serve ≡ Serve.sent failed → GrpcMove p (crash p)
  stopped : p.grpc ≡ Grpc.stopping → p.streams ≡ 0 → GrpcMove p (record p { grpc = Grpc.draining })
  serve_returned :
      (failed : Bool)
      → p.grpc ≡ Grpc.draining
      → p.serve ≡ Serve.sent failed
      → GrpcMove p (record p { grpc = Grpc.finished; serve = Serve.received; group = p.group - 1 })

-- A step of one of the program's goroutines.
pub data Move (p q : Process) : Type 0 where
  by_main : MainMove p q → Move p q
  by_waiter : WaiterMove p q → Move p q
  by_admin : AdminMove p q → Move p q
  by_consul : ConsulMove p q → Move p q
  by_serve : ServeMove p q → Move p q
  by_listen : ListenMove p q → Move p q
  by_grpc : GrpcMove p q → Move p q

-- What the clients do on the gRPC server.
pub data ClientMove (p : Process) : Process → Type 0 where
  opens :
      p.serve ≡ Serve.serving
      → p.grpc ≡ Grpc.selecting
      → ClientMove p (record p { streams = suc p.streams })
  closes : (n : ℕ) → p.streams ≡ suc n → ClientMove p (record p { streams = n })

-- A run of the process, until it has ended, with the number of the program's own steps.
pub data Runs (p : Process) : ℕ → Process → Type 0 where
  here : Runs p 0 p
  own :
      {n : ℕ} {q r : Process} → Runs p n q → has_ended q.main ≡ false → Move q r → Runs p (suc n) r
  client :
      {n : ℕ} {q r : Process} → Runs p n q → has_ended q.main ≡ false → ClientMove q r → Runs p n r
