-- ===== src/Agent.antt =====
-- llm-ops-agent: what its HTTP interface does.
pub mod Numbers
pub mod Cases
pub mod Analysis
pub mod A2a
