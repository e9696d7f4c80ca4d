-- ===== src/SchedulerExtender.antt =====
-- The scheduler extender (k8s-scheduler-extender-example/).
pub mod Handlers
pub mod Routes
pub mod Laws
pub mod SetUp
pub mod SetUpLaws
mod Tests
mod SetUpTests
