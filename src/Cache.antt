-- ===== src/Cache.antt =====
-- packages/core/src/Cache.ts: a read-through cache over the service, with one lookup at a time for a
-- key (`stampede`), and a second cache in the process (`Tiered`). The service and the codec are
-- parameters, as are the clock, the sleep and the random tokens of the runtime.
pub mod Options
pub mod ReleaseScript
pub mod Core
pub mod Waiting
pub mod Handle
pub mod ReadThrough
pub mod Lock
pub mod Stampede
pub mod Tiered
mod Tests
