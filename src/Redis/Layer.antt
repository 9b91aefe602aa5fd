-- ===== src/Redis/Layer.antt =====
-- The service over a connection that is acquired (`layerConnection`, `Redis.layer` and
-- `traceConnection` of Redis.ts).
use redfx.Common.{String, [], ◌∷◌, Option, none, some, length}
use redfx.Js.Text.{◌<>◌, to_lower_case, show}
use redfx.Js.Object.{Obj}
use redfx.Durations.{Durations}
use redfx.RedisError.{RedisError}
use redfx.Run.{Effect, pure, ◌>>=◌}
use redfx.Connection.{ConnectionService}
use redfx.Connection.Timeout.{Deadline, timeout_connection}
use redfx.Redis.Service.{RedisService}
use redfx.Redis.Make.{make_redis}

-- `Effect.withSpan(name, { kind: "client", attributes })` of the effect library.
abbrev pub Spans : Type 0 → Type 1
Spans W = (A : Type 0) → String → Obj String → Effect W RedisError A → Effect W RedisError A

unfoldable pub trace_connection : {W : Type 0} → ConnectionService W → Spans W → ConnectionService W
trace_connection conn with_span = record {
  send = λ command.
      with_span _ ("redis." <> to_lower_case command.name)
        (("db.system", "redis") ∷ ("db.operation", command.name) ∷ []) (conn.send command);
  pipeline = λ commands.
      with_span _ "redis.pipeline"
        (("db.system", "redis")
          ∷ ("db.operation", "PIPELINE")
          ∷ ("redis.pipeline.commands", show (length commands))
          ∷ [])
        (conn.pipeline commands);
  close = conn.close;
}

module _ {W : Type 0} (durations : Durations) (with_span : Spans W)
    (deadline : durations.DurationInput → Deadline W) where
  -- `Redis.layer`
  unfoldable pub layer : ConnectionService W → RedisService W durations
  unfolding trace_connection
  layer conn = make_redis durations (trace_connection conn with_span)

  with_timeout : Option durations.DurationInput → ConnectionService W → ConnectionService W
  with_timeout none conn = conn
  with_timeout (some duration) conn = timeout_connection conn (deadline duration)

  unfoldable pub layer_connection :
      Effect W RedisError (ConnectionService W)
      → Option durations.DurationInput
      → Effect W RedisError (RedisService W durations)
  unfolding layer with_timeout
  layer_connection acquire timeout = acquire >>= λ conn. pure (layer (with_timeout timeout conn))
