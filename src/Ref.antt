-- ===== src/Ref.antt =====
-- The typed key families of packages/core/src/Redis.ts (`Redis.ref`, `setOf`, `sortedSet`, `hashOf`,
-- `stream`) and their handles, over the service `RedisService`. The consumers of `stream` are in
-- Consumer.Typed.
mod Options
pub mod Value
pub mod SetOf
pub mod SortedSet
pub mod HashOf
pub mod StreamOf
pub mod CollectionServer
pub mod Collected
pub mod Handles
pub mod Laws
pub mod Messages
mod Tests
mod CollectionTests
unfoldable pub use Options.*
