-- ===== src/Tests.antt =====
-- Concrete runs: each theorem of the results at an input that exercises the code.
mod Fixtures
mod Sessions
mod Waits
mod Clients
mod Traffic
mod Openings
mod Questions
mod Settings
mod Histories
mod Schemas
