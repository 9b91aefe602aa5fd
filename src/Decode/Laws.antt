-- ===== src/Decode/Laws.antt =====
-- What holds of the decoders of packages/core/src/internal/decode.ts.
pub mod Protocols
pub mod Records
pub mod Numbers
