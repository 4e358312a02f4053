-- ===== src/Sdk.antt =====
-- The SDK for external agents: sdk/aqap_sdk.
pub mod Message
pub mod Consumer
pub mod Producer
pub mod Bridge
