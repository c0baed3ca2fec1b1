-- ===== src/Lib.antt =====
-- flexds: an xDS control plane for Envoy, fed by service discovery.
--
-- The program. Three loaders report services: the Consul loader on each change that its watcher
-- hands on (internal/discovery/consul), the YAML loader once (internal/discovery/yaml), the Marathon
-- loader on each poll (internal/discovery/marathon). Each calls the aggregator
-- (internal/discovery/aggregator.go), which keeps the last report of each loader and passes all
-- services to the snapshot manager (internal/xds/snapshot_manager.go). That builds clusters,
-- endpoints, routes and listeners and puts the snapshot into the cache of go-control-plane, under a
-- reference key and for each node that the cache knows. The callbacks of the xDS server
-- (internal/xds/server.go) give a node that sends a request the reference snapshot. cmd/flexds/main.go
-- reads the flags and starts all of this.
--
-- The files.
--   Common/ServiceModel   internal/common/types/service_model.go
--   Common/Telemetry      internal/common/telemetry/metrics.go: the metrics, and InitMetrics
--   Config                internal/common/config: Uint32SliceFlag, LogLevelFlag, Duration
--   Discovery/Aggregator  DiscoveredServiceAggregator; `update_services` is UpdateServices
--   Discovery/Aggregator/Abstract   what the aggregator is for, on multisets
--   Discovery/Aggregator/Interleaved   UpdateServices in steps, for two goroutines without a lock
--   Discovery/Consul/RouteParser   ParseServiceRoutes
--   Discovery/Consul/Watcher       the Watch of ImmediateWatcher, DebounceWatcher and BatchWatcher,
--                         as step functions `immediate`, `debounce` and `batch`; NewWatcher
--   Discovery/Consul/Timed         the loops of DebounceWatcher and BatchWatcher with the times that
--                         queries take and the timers that run down meanwhile; Steady: what the
--                         two loops have in common
--   Discovery/Consul/Loader        the handler in StartWatcher, and StartWatcher behind its client
--   Discovery/Consul/Client        HeaderRoundTripper, NewClient, and StartWatcher whole
--   Discovery/Yaml        parseRoutes and LoadConfig
--   Discovery/Marathon    convertToDiscoveredServices and what it calls; Request: the first part of
--                         loadConfig; Load: its second part, and LoadConfig
--   Xds/Resources         the messages that the snapshot manager fills in
--   Xds/Clusters          BuildAndPushSnapshot's loop over the services
--   Xds/SnapshotManager   the rest of BuildAndPushSnapshot
--   Xds/Cache             the snapshot cache as a record of operations, its laws, and one instance
--   Xds/Server            OnStreamRequest and the other callbacks that return an error; Callbacks: all
--                         of them, with the pointers that they follow
--   Xds/Server/Setup      what RunGRPC sets up before it serves
--   Main                  validation of the flags, and the loaders that main calls itself
--   Main/Wiring           the parts that main makes, with references to one cache
--   Main/Admin            the admin server's address and handlers
--   Main/Shutdown         the goroutines of main and RunGRPC as a step relation, to the process's end
--   System                reports of any loaders and requests of any nodes, one after the other;
--                         Program: the same with the loaders' own events and what they meet outside
--   System/Interleaved    the loaders' goroutines and the streams' callbacks, step by step
--   Prelude, Results, Strings, Dict   lists, integers, errors and panics, text, and maps
-- Folders beside a file hold its lemmas, named for what they are about, and its tests.
--
-- The conventions. A Go string is its list of bytes. A Go map is the list of its entries in the order
-- in which `range` meets them; where the result must not depend on that order, a theorem says so or
-- the order is a parameter. An error is a value; `Run` tells a call that returns from one that
-- panics. State is passed on explicitly: the version counter, the cache's state and the metrics are
-- in `World`, the services of each loader in `Aggregator`. A loop that waits for events takes the
-- list of the rounds that it meets; where the time matters (Discovery/Consul/Timed), the list of the
-- answers and of the milliseconds that each takes. Where goroutines share state, a schedule or a run
-- of an indexed step relation says in which order they move.
--
-- Parameters. The snapshot cache, anypb.New (`marshals`), Consul's health query, sort.Slice,
-- time.ParseDuration, file reading, YAML and JSON decoding, the HTTP client, the constructor of
-- Consul's client, the transport under its headers, Prometheus's registry and the gRPC server are
-- arguments of the definitions. What a theorem needs of them are its hypotheses: the laws of the
-- cache in Xds/Cache (SetSnapshot stores what GetSnapshot gives back, and does not change which nodes are
-- known), and of the sort in Discovery/Consul/Loader/Entries. In the watchers the timer fires only
-- while it runs, as since Go 1.23.
--
-- Bounds. Printing a number takes as fuel the number plus one, which is enough since each division
-- by ten makes it smaller. ParseServiceRoutes tries the ten route numbers of the source. The
-- version wraps at 2^64 and the conversion to uint32 at 2^32, as in Go. TrimSpace and ToLower are
-- modelled on ASCII only. Runs of the process (Main/Shutdown) and of two goroutines in the
-- aggregator need no fuel: they are step relations and schedules of any length.
--
-- Not modelled: log lines and the logger, flag.Parse, what Prometheus, net/http and the gRPC server
-- do with what they are given, and the container set-up with its test services. In the
-- interleavings an access of the aggregator's map is one step: that the Go runtime may stop the
-- program where two goroutines access a map at once is not modelled. More than two goroutines never
-- call UpdateServices, since main runs the YAML and the Marathon loader itself. In Main/Shutdown the
-- loops of the watch, of the polling and of the gRPC server are one state each, so its steps are not
-- those of the program one by one. In a watch (Discovery/Consul/Loader) Consul's answers on the
-- health of services are one function; in System/Program they may change with each call of the
-- handler. A snapshot keeps the lists that NewSnapshot is given, without the index by name that the
-- library makes of them.
pub mod Common
pub mod Config
pub mod Dict
pub mod Discovery
pub mod Main
pub mod Prelude
pub mod Results
pub mod Strings
pub mod System
pub mod Xds
