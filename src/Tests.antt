-- ===== src/Tests.antt =====
-- Runs of the definitions on concrete data, and the theorems at it.
pub mod Data
mod Engine
mod Writer
mod Enact
mod Placement
pub mod Controller
pub mod Server
mod Outer
mod Operator
