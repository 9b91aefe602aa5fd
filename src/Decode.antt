-- ===== src/Decode.antt =====
-- packages/core/src/internal/decode.ts: what each decoder makes of a reply.
mod Scalar
mod Flat
mod Stream
mod Info
pub mod Laws
mod Tests
unfoldable pub use Scalar.*
unfoldable pub use Flat.*
unfoldable pub use Stream.*
unfoldable pub use Info.*
