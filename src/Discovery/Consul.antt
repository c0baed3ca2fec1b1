-- ===== src/Discovery/Consul.antt =====
-- internal/discovery/consul
pub mod RouteParser
pub mod Client
pub mod Loader
pub mod Timed
pub mod Watcher
