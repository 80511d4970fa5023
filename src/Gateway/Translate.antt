-- ===== src/Gateway/Translate.antt =====
-- The translation of queries into SQL: the part "Translators" of
-- observe-gateway/internal/backend/client.go.
pub mod Sql
pub mod Logql
pub mod Traceql
pub mod Literals
pub mod Conditions
pub mod Closed
pub mod Fuel
mod Tests
