-- ===== src/Redis.antt =====
-- packages/core/src/Redis.ts: the typed commands of the service `Redis`.
pub mod KeyTtl
pub mod Service
pub mod Keys
pub mod Collections
pub mod Streams
pub mod Make
pub mod Layer
pub mod ValueServer
pub mod Memory
pub mod Laws
pub mod Sends
mod Tests
