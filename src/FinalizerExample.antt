-- ===== src/FinalizerExample.antt =====
-- The finalizer example (finalizer-example/finalizer.go): a controller that keeps one Pod for a SimpleApp
-- and removes its finalizer once no Pod is left.
pub mod Controller
pub mod Laws
pub mod Liveness
mod Tests
mod ReleaseTests
