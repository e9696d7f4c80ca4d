-- ===== src/LeaderElection.antt =====
-- Leader election on Redis (leader-election/).
pub mod Redis
pub mod RedisLock
pub mod LockLaws
pub mod Exclusion
pub mod Refinement
pub mod Options
mod Tests
