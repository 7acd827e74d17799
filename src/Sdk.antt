-- ===== src/Sdk.antt =====
-- packages/plugin-sdk: the library that plugins are built on.
pub mod Transport
pub mod Client
pub mod Manifest
pub mod Async
pub mod Plugin
