-- ===== src/TokenBroker.antt =====
-- The token broker service (token-broker/).
pub mod Errors
pub mod Channel
pub mod Semaphore
pub mod Session
pub mod Sessions
pub mod JwtExpiry
pub mod Cache
pub mod Auth
pub mod OAuth
pub mod Broker
pub mod Discovery
pub mod Exchange
pub mod Http
pub mod Handlers
