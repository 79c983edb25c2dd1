-- ===== src/Tests.antt =====
-- Runs of the theorems on small concrete inputs.
pub mod Store
pub mod Breaker
pub mod World
pub mod Flow
pub mod Requests
pub mod Engine
pub mod Pictures
pub mod Redis
