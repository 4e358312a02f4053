-- ===== src/Plugin.antt =====
-- Plugins: aqap/plugin and aqap/plugins.
pub mod Registry
pub mod Validator
pub mod TraceCollector
pub mod Scorer
