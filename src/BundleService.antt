-- ===== src/BundleService.antt =====
-- The bundle service of the operator (operator/internal/bundleservice), which serves the authorization
-- policies of a workload as an OPA bundle.
pub mod Lru
pub mod SpiffeId
pub mod Content
pub mod Etag
pub mod Caches
pub mod Watcher
pub mod Provider
pub mod Routes
