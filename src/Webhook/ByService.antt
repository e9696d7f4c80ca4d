-- ===== src/Webhook/ByService.antt =====
-- The hand-written webhook behind a service (webhook/using-byhand/by-service/webhook.go).
pub mod Review
pub mod Policy
pub mod Patch
pub mod Handlers
pub mod Server
pub mod PolicyLaws
pub mod PatchLaws
pub mod HandlerLaws
pub mod ServerLaws
mod Tests
