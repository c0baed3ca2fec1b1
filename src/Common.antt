-- ===== src/Common.antt =====
-- internal/common: the packages that the others share.
pub mod ServiceModel
pub mod Telemetry
