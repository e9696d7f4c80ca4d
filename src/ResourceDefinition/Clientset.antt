-- ===== src/ResourceDefinition/Clientset.antt =====
-- The clientset of the resource XXX (resourcedefinition/generated/clientset/versioned/).
pub mod Rest
pub mod Typed
pub mod Fake
pub mod Calls
pub mod CallsLaws
pub mod Config
pub mod ConfigLaws
mod Tests
