-- ===== src/Connection/Timeout.antt =====
-- `timeoutConnection` of packages/core/src/Redis.ts: a deadline on commands and pipelines. The
-- effect library's clock and interruption are a parameter: what a run within the deadline comes to.
use redfx.Common.{Option, none, some}
use redfx.Effect.{Exit, fail}
use redfx.Run.{Effect}
use redfx.RedisError.{RedisError, timeout_error}
use redfx.Connection.{ConnectionService}

-- `Effect.timeoutFail`: none stands for a run that was interrupted at the deadline.
abbrev pub Deadline : Type 0 → Type 1
Deadline W = (A : Type 0) → Effect W RedisError A → W → Option (Exit RedisError A) × W

abbrev or_timeout : {A : Type 0} → RedisError → Option (Exit RedisError A) → Exit RedisError A
or_timeout e none = fail e
or_timeout e (some r) = r

abbrev pub timeout_fail :
    {W A : Type 0} → Deadline W → RedisError → Effect W RedisError A → Effect W RedisError A
timeout_fail {A = A} within e m w = let (r, w') = within A m w in (or_timeout e r, w')

unfoldable pub timeout_connection :
    {W : Type 0} → ConnectionService W → Deadline W → ConnectionService W
timeout_connection conn within = record {
  send = λ command.
      timeout_fail within (timeout_error "redis command timed out" (some command.name) none)
        (conn.send command);
  pipeline = λ commands.
      timeout_fail within (timeout_error "redis pipeline timed out" none none)
        (conn.pipeline commands);
  close = conn.close;
}
