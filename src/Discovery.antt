-- ===== src/Discovery.antt =====
-- internal/discovery: the loaders and the aggregator of what they discover.
pub mod Aggregator
pub mod Consul
pub mod Marathon
pub mod Yaml
