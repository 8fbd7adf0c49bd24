-- ===== src/Keycloak.antt =====
-- The operator's client of Keycloak (operator/internal/keycloak).
pub mod AdminTokens
