-- ===== src/Main/Shutdown/Loads.antt =====
-- The runs of the process in which main goes on from its loaders only as cmd/flexds/main.go does.
use flexds.Prelude.{ℕ, ◌≡◌, ◌⊎◌, inl, inr, refl, sym, ◌∙◌, ap, Bool, true, false, List, All}
use flexds.Results.{Result}
use flexds.Results.Panics.{returns}
use flexds.Strings.{Text}
use flexds.Xds.Resources.{Message}
use flexds.Xds.Cache.{SnapshotCache}
use flexds.Xds.SnapshotManager.{World}
use flexds.Discovery.Aggregator.{ServiceMap, Aggregator}
use flexds.Discovery.Yaml.{Service}
use flexds.Discovery.Marathon.Load.{Round}
use flexds.Discovery.Marathon.Load.Polling.{IsTick}
use flexds.Main.{Flags, start_up}
use flexds.Main as Main
use flexds.Main.Startup.{start_up_marathon}
use flexds.Main.Shutdown.{
  Stage, Process, started, is_cancelled, has_ended, MainMove, WaiterMove, AdminMove, ConsulMove,
  ServeMove, ListenMove, GrpcMove, Move, by_main, by_waiter, by_admin, by_consul, by_serve,
  by_listen, by_grpc, ClientMove,
}

module _ {E : Type 0} {S : Type 0} (cache : SnapshotCache S) (marshals : Message → Bool)
    (listener_ports : List ℕ) (range : ServiceMap → ServiceMap) (read_file : Text → Result E Text)
    (unmarshal : Text → Result E (List Service)) (f : Flags) (w : World S) where
  -- The loaders return, and main goes on to wait for a signal. Marathon's loop meets a cancelled
  -- context only where it is cancelled.
  abbrev pub LoadsReturn : Process → Type 0
  LoadsReturn p =
      (rounds : List (Round E)) × (b : Aggregator S) × (All IsTick rounds
        ⊎ (is_cancelled p.main ≡ true))
      × (start_up cache marshals listener_ports range read_file unmarshal f rounds w
          ≡ returns (b, Main.awaits_signal))

  abbrev pub IsAllowed : {p q : Process} → Move p q → Type 0
  IsAllowed {p} (by_main (MainMove.loaded e)) = LoadsReturn p
  IsAllowed m = Unit

  -- A run of the process from the start of its goroutines on.
  pub data Goes : Process → Type 0 where
    begins : Goes (started f.consul_discovery)
    moves :
        {p q : Process} → Goes p → has_ended p.main ≡ false → (m : Move p q) → IsAllowed m → Goes q
    client : {p q : Process} → Goes p → ClientMove p q → Goes q

  abbrev NeverWaits : Process → Type 0
  NeverWaits p = (p.main ≡ Stage.loading) ⊎ (p.main ≡ Stage.crashed)

  module _ (on : f.marathon_discovery ≡ true) where
    loads_wait : (p : Process) → p.main ≡ Stage.loading → LoadsReturn p → ⊥
    loads_wait p e (rounds, b, inl ticks, h) =
        start_up_marathon cache marshals listener_ports range read_file unmarshal f rounds w b on
          ticks h
    loads_wait p e (rounds, b, inr cancelled, h) = not_yet (ap is_cancelled (sym e) ∙ cancelled)
      where
        not_yet : false ≡ true → ⊥
        not_yet k = cc

    MainMove-NeverWaits :
        {p q : Process} (m : MainMove p q) → IsAllowed (by_main m) → NeverWaits p → NeverWaits q
    MainMove-NeverWaits {p} (MainMove.loaded e) h n = absurd (loads_wait p e h)
    MainMove-NeverWaits (MainMove.load_failed e) h n = inr refl
    MainMove-NeverWaits (MainMove.signalled e) h (inl k) = absurd (cc)
    MainMove-NeverWaits (MainMove.signalled e) h (inr k) = absurd (cc)
    MainMove-NeverWaits (MainMove.done e d) h (inl k) = absurd (cc)
    MainMove-NeverWaits (MainMove.done e d) h (inr k) = absurd (cc)
    MainMove-NeverWaits (MainMove.timed_out e) h (inl k) = absurd (cc)
    MainMove-NeverWaits (MainMove.timed_out e) h (inr k) = absurd (cc)
    MainMove-NeverWaits (MainMove.shut_down graceful e) h (inl k) = absurd (cc)
    MainMove-NeverWaits (MainMove.shut_down graceful e) h (inr k) = absurd (cc)

    Move-NeverWaits : {p q : Process} (m : Move p q) → IsAllowed m → NeverWaits p → NeverWaits q
    Move-NeverWaits (by_main m) h n = MainMove-NeverWaits m h n
    Move-NeverWaits (by_waiter (WaiterMove.waited e z)) h n = n
    Move-NeverWaits (by_admin (AdminMove.server_closed e c)) h n = n
    Move-NeverWaits (by_admin (AdminMove.server_failed e)) h n = inr refl
    Move-NeverWaits (by_consul (ConsulMove.client_failed e)) h n = n
    Move-NeverWaits (by_consul (ConsulMove.client_created e)) h n = n
    Move-NeverWaits (by_consul (ConsulMove.watch_ended e c)) h n = n
    Move-NeverWaits (by_serve (ServeMove.serve_failed e)) h n = n
    Move-NeverWaits (by_serve (ServeMove.serve_stopped e d)) h n = n
    Move-NeverWaits (by_listen (ListenMove.listen_failed e)) h n = inr refl
    Move-NeverWaits (by_listen (ListenMove.listens e)) h n = n
    Move-NeverWaits (by_grpc (GrpcMove.sees_cancelled e c)) h n = n
    Move-NeverWaits (by_grpc (GrpcMove.sees_serve_error failed e d)) h n = inr refl
    Move-NeverWaits (by_grpc (GrpcMove.stopped e z)) h n = n
    Move-NeverWaits (by_grpc (GrpcMove.serve_returned failed e d)) h n = n

    ClientMove-NeverWaits : {p q : Process} → ClientMove p q → NeverWaits p → NeverWaits q
    ClientMove-NeverWaits (ClientMove.opens e d) n = n
    ClientMove-NeverWaits (ClientMove.closes k e) n = n

    -- With Marathon discovery on, whatever the loads meet and whatever the other goroutines and the
    -- clients do: main stays in its loaders until the process exits with code 1. It never comes to
    -- wait for a signal, to cancel the context or to shut anything down.
    pub Goes-NeverWaits :
        {p : Process} → Goes p → (p.main ≡ Stage.loading) ⊎ (p.main ≡ Stage.crashed)
    Goes-NeverWaits begins = inl refl
    Goes-NeverWaits (moves r live m h) = Move-NeverWaits m h (Goes-NeverWaits r)
    Goes-NeverWaits (client r m) = ClientMove-NeverWaits m (Goes-NeverWaits r)
