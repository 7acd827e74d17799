-- ===== src/Http.antt =====
-- packages/hub-core/src/server.ts and packages/hub-core/src/static.ts: how a request finds its handler.
pub mod Paths
pub mod Static
pub mod Auth
pub mod Routes
pub mod Handle
pub mod Token
pub mod Guarded
pub mod Startup
pub mod Inside
pub mod Served
mod Tests
