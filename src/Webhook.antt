-- ===== src/Webhook.antt =====
-- The pod webhook of the operator (operator/internal/webhook).
pub mod Values
pub mod Precedence
pub mod NamespaceConfig
pub mod Credentials
pub mod BaseConfigs
pub mod Preset
