-- ===== src/Webhook/Calculate.antt =====
-- The Calculate resource (webhook/using-kubebuilder/).
pub mod Types
pub mod Admission
pub mod Controller
pub mod Laws
pub mod DeepCopy
mod Tests
