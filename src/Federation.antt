-- ===== src/Federation.antt =====
-- packages/hub-core/src/server.ts and packages/hub-core/src/federation: tool calls between hubs.
pub mod Limit
pub mod Revoke
pub mod Call
pub mod Names
pub mod Invoke
pub mod Create
