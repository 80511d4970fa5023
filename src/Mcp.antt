-- ===== src/Mcp.antt =====
-- mcp-server: the server of resources and tools.
pub mod Registry
pub mod Server
pub mod Observability
