-- ===== src/Client.antt =====
-- nodejs/src/client.ts
pub mod State
pub mod Start
pub mod Stop
pub mod Incoming
pub mod SystemMessage
pub mod SessionConfig
pub mod Sessions
pub mod Queries
pub mod Options
pub mod Lifecycle
pub mod Machine
pub mod Command
pub mod Spawn
