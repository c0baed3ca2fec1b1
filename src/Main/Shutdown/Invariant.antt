-- ===== src/Main/Shutdown/Invariant.antt =====
-- What holds whenever the program runs: the counter of the WaitGroup, and why it never reaches 0
-- in time.
use flexds.Prelude.{
  ℕ, suc, ◌+◌, ◌≡◌, refl, ◌≢◌, Bool, true, false, arith, ◌<◌, ◌⊎◌, inl, inr, Bool-cases,
}
use flexds.Main.Shutdown.{
  Stage, Grpc, Serve, Consul, Waiter, Process, started, is_closing, is_graceful, MainMove,
  WaiterMove, AdminMove, ConsulMove, ServeMove, GrpcMove, Move, by_main, by_waiter, by_admin,
  by_consul, by_serve, by_grpc, by_listen, ListenMove, ClientMove, Runs,
}

abbrev pub of_grpc : Grpc → ℕ
of_grpc Grpc.finished = 0
of_grpc grpc = 1

abbrev pub of_admin : Bool → ℕ
of_admin true = 1
of_admin false = 0

abbrev pub of_consul : Consul → ℕ
of_consul Consul.finished = 0
of_consul consul = 1

-- The goroutines that have not called wg.Done.
abbrev pub unfinished : Process → ℕ
unfinished p = of_grpc p.grpc + of_admin p.admin_serves + of_consul p.consul

-- main has not come to admin.Shutdown, and nothing has called os.Exit.
abbrev pub is_before : Stage → Bool
is_before Stage.loading = true
is_before Stage.awaits_signal = true
is_before Stage.selecting = true
is_before main = false

closing_not_before : (m : Stage) → is_closing m ≡ true → is_before m ≡ false
closing_not_before m h = ground arith

pub record IsCounted (p : Process) : Type 0 where
  pub counts : p.group ≡ unfinished p
  pub admin_on : is_before p.main ≡ true → p.admin_serves ≡ true
  pub not_graceful : is_graceful p.main ≡ false
  pub waits : p.main ≡ Stage.selecting → p.waiter ≢ Waiter.closed_done

started-IsCounted : (consul_discovery : Bool) → IsCounted (started consul_discovery)
started-IsCounted true = record {
  counts = refl;
  admin_on = λ _. refl;
  not_graceful = refl;
  waits = λ k. cc;
}
started-IsCounted false = record {
  counts = refl;
  admin_on = λ _. refl;
  not_graceful = refl;
  waits = λ k. cc;
}

crash-IsCounted : (p : Process) → IsCounted p → IsCounted (record p { main = Stage.crashed })
crash-IsCounted p h = record {
  counts = h.counts;
  admin_on = λ k. cc;
  not_graceful = refl;
  waits = λ k. cc;
}

AdminMove-IsCounted : {p q : Process} → AdminMove p q → IsCounted p → IsCounted q
AdminMove-IsCounted (AdminMove.server_closed on closing) h = record {
  counts = let c = rw on at h.counts in omega arith;
  admin_on = λ b. let n = closing_not_before _ closing in cc;
  not_graceful = h.not_graceful;
  waits = h.waits;
}
AdminMove-IsCounted {p} (AdminMove.server_failed on) h = crash-IsCounted p h

-- Goroutines other than main's, the admin server's and the waiter may go on and leave the counter
-- with what remains.
keeps-IsCounted :
    (p : Process) (grpc : Grpc) (serve : Serve) (streams : ℕ) (consul : Consul) (group : ℕ)
    → IsCounted p
    → group ≡ of_grpc grpc + of_admin p.admin_serves + of_consul consul
    → IsCounted
        (record p { grpc = grpc; serve = serve; streams = streams; consul = consul; group = group })
keeps-IsCounted p grpc serve streams consul group h c = record {
  counts = c;
  admin_on = h.admin_on;
  not_graceful = h.not_graceful;
  waits = h.waits;
}

ConsulMove-IsCounted : {p q : Process} → ConsulMove p q → IsCounted p → IsCounted q
ConsulMove-IsCounted {p} (ConsulMove.client_failed e) h =
    let c = rw e at h.counts in keeps-IsCounted p _ _ _ Consul.finished _ h (omega arith)
ConsulMove-IsCounted {p} (ConsulMove.client_created e) h =
    let c = rw e at h.counts in keeps-IsCounted p _ _ _ Consul.watching _ h (omega arith)
ConsulMove-IsCounted {p} (ConsulMove.watch_ended e cancelled) h =
    let c = rw e at h.counts in keeps-IsCounted p _ _ _ Consul.finished _ h (omega arith)

ServeMove-IsCounted : {p q : Process} → ServeMove p q → IsCounted p → IsCounted q
ServeMove-IsCounted {p} (ServeMove.serve_failed e) h =
    keeps-IsCounted p _ (Serve.sent true) _ _ _ h h.counts
ServeMove-IsCounted {p} (ServeMove.serve_stopped e d) h =
    keeps-IsCounted p _ (Serve.sent false) _ _ _ h h.counts

ClientMove-IsCounted : {p q : Process} → ClientMove p q → IsCounted p → IsCounted q
ClientMove-IsCounted {p} (ClientMove.opens e d) h =
    keeps-IsCounted p _ _ (suc p.streams) _ _ h h.counts
ClientMove-IsCounted {p} (ClientMove.closes n e) h = keeps-IsCounted p _ _ n _ _ h h.counts

ListenMove-IsCounted : {p q : Process} → ListenMove p q → IsCounted p → IsCounted q
ListenMove-IsCounted {p} (ListenMove.listen_failed e) h = crash-IsCounted p h
ListenMove-IsCounted {p} (ListenMove.listens e) h =
    let c = rw e at h.counts in keeps-IsCounted p Grpc.selecting Serve.serving _ _ _ h c

GrpcMove-IsCounted : {p q : Process} → GrpcMove p q → IsCounted p → IsCounted q
GrpcMove-IsCounted {p} (GrpcMove.sees_cancelled e _) h =
    let c = rw e at h.counts in keeps-IsCounted p Grpc.stopping _ _ _ _ h c
GrpcMove-IsCounted {p} (GrpcMove.sees_serve_error _ _ _) h = crash-IsCounted p h
GrpcMove-IsCounted {p} (GrpcMove.stopped e _) h =
    let c = rw e at h.counts in keeps-IsCounted p Grpc.draining _ _ _ _ h c
GrpcMove-IsCounted {p} (GrpcMove.serve_returned _ e _) h =
    let c = rw e at h.counts in keeps-IsCounted p Grpc.finished Serve.received _ _ _ h (omega arith)

-- While main has not called admin.Shutdown the counter is not 0: the admin server still runs.
pub not_empty : (p : Process) → IsCounted p → is_before p.main ≡ true → 0 < p.group
not_empty p h before = let c = rw (h.admin_on before) at h.counts in omega arith

WaiterMove-IsCounted : {p q : Process} → WaiterMove p q → IsCounted p → IsCounted q
WaiterMove-IsCounted {p} (WaiterMove.waited e z) h = record {
  counts = h.counts;
  admin_on = h.admin_on;
  not_graceful = h.not_graceful;
  waits = λ k. absurd (let l = not_empty p h (rw k) in omega arith);
}

MainMove-IsCounted : {p q : Process} → MainMove p q → IsCounted p → IsCounted q
MainMove-IsCounted (MainMove.loaded e) h = record {
  counts = h.counts;
  admin_on = let b = rw e at h.admin_on in b;
  not_graceful = refl;
  waits = λ k. cc;
}
MainMove-IsCounted {p} (MainMove.load_failed e) h = crash-IsCounted p h
MainMove-IsCounted (MainMove.signalled e) h = record {
  counts = h.counts;
  admin_on = let b = rw e at h.admin_on in b;
  not_graceful = refl;
  waits = λ _ k. cc;
}
MainMove-IsCounted (MainMove.done e d) h = absurd (h.waits e d)
MainMove-IsCounted (MainMove.timed_out e) h = record {
  counts = h.counts;
  admin_on = λ k. cc;
  not_graceful = refl;
  waits = λ k. cc;
}
MainMove-IsCounted (MainMove.shut_down graceful e) h = record {
  counts = h.counts;
  admin_on = λ k. cc;
  not_graceful = rw e at h.not_graceful;
  waits = λ k. cc;
}

Move-IsCounted : {p q : Process} → Move p q → IsCounted p → IsCounted q
Move-IsCounted (by_main m) h = MainMove-IsCounted m h
Move-IsCounted (by_waiter m) h = WaiterMove-IsCounted m h
Move-IsCounted (by_admin m) h = AdminMove-IsCounted m h
Move-IsCounted (by_consul m) h = ConsulMove-IsCounted m h
Move-IsCounted (by_serve m) h = ServeMove-IsCounted m h
Move-IsCounted (by_grpc m) h = GrpcMove-IsCounted m h
Move-IsCounted (by_listen m) h = ListenMove-IsCounted m h

pub Runs-IsCounted :
    (consul_discovery : Bool) {n : ℕ} {p : Process}
    → Runs (started consul_discovery) n p
    → IsCounted p
Runs-IsCounted consul_discovery Runs.here = started-IsCounted consul_discovery
Runs-IsCounted consul_discovery (Runs.own r on m) =
    Move-IsCounted m (Runs-IsCounted consul_discovery r)
Runs-IsCounted consul_discovery (Runs.client r on m) =
    ClientMove-IsCounted m (Runs-IsCounted consul_discovery r)

-- Whatever the goroutines, the clients and the servers do: the counter of the WaitGroup is the
-- number of goroutines that have not ended, so it never becomes negative. Until main calls
-- admin.Shutdown it is not 0, and main never leaves its select by `done`, since it waits for the
-- goroutine of the admin server before it tells that server to stop.
pub shutdown_never_graceful :
    (consul_discovery : Bool) {n : ℕ} {p : Process}
    → Runs (started consul_discovery) n p
    → (p.group ≡ unfinished p)
      × (((is_before p.main ≡ false) ⊎ (0 < p.group))
          × (¬ ((p.main ≡ Stage.selecting) × (p.waiter ≡ Waiter.closed_done))
              × (is_graceful p.main ≡ false)))
shutdown_never_graceful consul_discovery {p = p} r =
    let h = Runs-IsCounted consul_discovery r in
    (
      h.counts,
      (
        elim (Bool-cases (is_before p.main)) [ inl b ↦ inr (not_empty p h b) | inr b ↦ inl b ],
        (λ k. h.waits k.0 k.1, h.not_graceful),
      ),
    )
