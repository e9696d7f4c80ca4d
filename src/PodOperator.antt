-- ===== src/PodOperator.antt =====
-- The pod operator (pod-operator/): the PodManager resource and the controller that keeps its Pods.
pub mod Types
pub mod Controller
pub mod Conditions
pub mod DeepCopy
pub mod Scaling
pub mod Names
pub mod Convergence
pub mod Reconciled
pub mod Deletion
pub mod Lifecycle
pub mod PodsGone
pub mod FinalizerKept
pub mod Orphans
pub mod Release
pub mod Readiness
pub mod Status
mod CopyTests
mod Tests
mod ConvergenceTests
mod WebServer
mod OrphanTests
mod ReleaseTests
