-- ===== src/CaseStore.antt =====
-- llm-ops-agent: the case repository over PostgreSQL (internal/ports/postgres/case_repo.go) with the
-- queries of db/sqlc and the outbox publisher (internal/outbox/publisher.go).
pub mod Tables
pub mod Session
pub mod Repository
pub mod Atomicity
pub mod Creation
pub mod Versions
pub mod Progress
pub mod Idempotence
pub mod Publisher
mod Tests
