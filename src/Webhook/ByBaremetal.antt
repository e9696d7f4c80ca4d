-- ===== src/Webhook/ByBaremetal.antt =====
-- The webhook for Pods on bare metal (webhook/using-byhand/by-baremetal/).
pub mod Server
pub mod Laws
mod Tests
