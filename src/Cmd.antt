-- ===== src/Cmd.antt =====
-- `Cmd` of packages/core/src/RedisCommand.ts: one builder for each command.
pub mod Keys
pub mod Streams
