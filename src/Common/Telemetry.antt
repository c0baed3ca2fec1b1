-- ===== src/Common/Telemetry.antt =====
-- internal/common/telemetry/metrics.go: the two metrics, their values and their registration.
-- (Prometheus serves them, on the admin server's /metrics.)
use flexds.Prelude.{ℕ, ◌+◌}
use flexds.Results.{Result, ok, err}
use flexds.Results.Panics.{Run, returns, panics, ◌>>=◌}
use flexds.Strings.{Text, codes}

pub record Metrics : Type 0 where
  pub snapshots_pushed : ℕ  -- flexds_snapshots_pushed_total, a counter
  pub services_discovered : ℕ  -- flexds_services_discovered, a gauge

abbrev pub new_metrics : Metrics
new_metrics = record { snapshots_pushed = 0; services_discovered = 0 }

-- MetricSnapshotsPushed.Inc()
abbrev pub inc_snapshots_pushed : Metrics → Metrics
inc_snapshots_pushed m = record m { snapshots_pushed = m.snapshots_pushed + 1 }

-- MetricServicesDiscovered.Set
abbrev pub set_services_discovered : ℕ → Metrics → Metrics
set_services_discovered n m = record m { services_discovered = n }

-- prometheus.CounterOpts and GaugeOpts
pub record MetricOpts : Type 0 where
  pub name : Text
  pub help : Text

abbrev pub snapshots_pushed_opts : MetricOpts
snapshots_pushed_opts = record {
  name = codes "flexds_snapshots_pushed_total";
  help = codes "Total number of snapshots pushed to the cache";
}

abbrev pub services_discovered_opts : MetricOpts
services_discovered_opts = record {
  name = codes "flexds_services_discovered";
  help = codes "Number of services discovered from Consul";
}

-- `register` is the default registry's Register, with what is registered as a state `R`.
module _ {R E : Type 0} (register : MetricOpts → R → Result E R) where
  abbrev or_panic : Result E R → Run R
  or_panic (ok r) = returns r
  or_panic (err e) = panics

  -- prometheus.MustRegister
  unfoldable pub must_register : MetricOpts → R → Run R
  must_register metric r = or_panic (register metric r)

  -- InitMetrics
  unfoldable pub init_metrics : R → Run R
  unfolding must_register
  init_metrics r = must_register snapshots_pushed_opts r >>= must_register services_discovered_opts
