-- ===== src/Gateway.antt =====
-- observe-gateway: the query gateway in front of OpenObserve.
pub mod Limiter
pub mod Translate
pub mod Query
pub mod Auth
pub mod Client
pub mod Config
pub mod OpenObserve
pub mod Metadata
