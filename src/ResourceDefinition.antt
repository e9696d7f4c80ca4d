-- ===== src/ResourceDefinition.antt =====
-- The resource XXX: its types, defaults and conversions (resourcedefinition/apps/).
pub mod Types
pub mod Defaults
pub mod Conversion
pub mod Laws
pub mod DeepCopy
pub mod Clientset
mod CopyTests
mod Tests
