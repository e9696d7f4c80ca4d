-- ===== src/Workqueue.antt =====
-- The workers on a rate-limited queue (client-go/).
pub mod Queue
pub mod Controller
pub mod Handlers
pub mod Laws
pub mod Termination
pub mod Events
mod Tests
