-- ===== src/ClientExamples.antt =====
-- Programs that call the API server by a client of client-go (client-go/).
pub mod ConfigMaps
pub mod Scripts
pub mod CreateLaws
pub mod ScriptLaws
pub mod Dynamic
pub mod DynamicLaws
pub mod Reflector
pub mod ReflectorLaws
pub mod Deployments
pub mod Retrying
pub mod DemoDeployment
pub mod DynamicDemo
pub mod RetryLaws
mod Tests
mod RetryTests
