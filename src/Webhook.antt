-- ===== src/Webhook.antt =====
-- The admission webhooks (webhook/).
pub mod ByService
pub mod ByBaremetal
pub mod Calculate
