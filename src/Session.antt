-- ===== src/Session.antt =====
-- nodejs/src/session.ts
pub mod State
pub mod Subscribe
pub mod Tasks
pub mod Broadcast
pub mod Dispatch
pub mod Ui
pub mod Waiting
pub mod Requests
pub mod Callbacks
