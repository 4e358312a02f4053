-- ===== src/Agent.antt =====
-- The agents: aqap/agent.
pub mod State
pub mod Base
pub mod Supervisor
pub mod DlqConsumer
pub mod Cleanup
pub mod Workers
pub mod Scheduler
pub mod Lifecycle
