-- ===== src/Adapter.antt =====
-- The adapters of packages/bun/src/index.ts and packages/ioredis/src/index.ts: how they convert arguments,
-- replies and errors, with which settings they make their clients, and what their subscriptions emit. The
-- clients are parameters.
pub mod Cause
pub mod Bun
pub mod IoRedis
pub mod Pipeline
pub mod Options
pub mod Emitter
pub mod FailFast
pub mod Subscriptions
mod Tests
mod ClientTests
