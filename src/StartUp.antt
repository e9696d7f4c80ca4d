-- ===== src/StartUp.antt =====
-- How the programs start: their main functions up to the call that keeps them running.
pub mod Process
pub mod CalculateManager
pub mod OperatorManager
pub mod ManagerLaws
pub mod Election
pub mod RedisElection
pub mod Servers
mod Tests
