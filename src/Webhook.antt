-- ===== src/Webhook.antt =====
-- pkg/webhook: the admission webhook that validates the sinks.
pub mod Lifecycle
pub mod Server
