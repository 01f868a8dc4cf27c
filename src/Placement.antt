-- ===== src/Placement.antt =====
-- internal/placement-server: the placement server, between the scheduler and the agent.
pub mod Types
pub mod Store
pub mod Hint
pub mod Client
pub mod Builder
pub mod Server
pub mod Extender
