-- ===== src/Adapter/IoRedis.antt =====
-- The ioredis adapter (packages/ioredis/src/index.ts).
pub mod Subscribe
pub mod Connect
use redfx.Common.{String, Bool, false, ◌||◌, ◌==◌, List, [], ◌∷◌, map, Option, none, some}
use redfx.Js.Text.{to_lower_case}
use redfx.Resp.{RespValue}
use redfx.RedisError.{RedisError}
use redfx.Run.{Effect, pure, raise, ◌>>=◌}
use redfx.RedisCommand.{Arg, RedisCommand}
use redfx.Adapter.Cause.{Cause, message_of, has_code, mentions, error_of, Promised, try_promise}

abbrev connection_codes : List String
connection_codes =
    "ECONNREFUSED" ∷ "ECONNRESET" ∷ "EPIPE" ∷ "ETIMEDOUT" ∷ "ENOTFOUND" ∷ "EAI_AGAIN"
    ∷ "ERR_REDIS_CONNECTION_CLOSED" ∷ []

abbrev connection_words : List String
connection_words =
    "connection is closed" ∷ "stream isn't writeable" ∷ "connection is already closed"
    ∷ "connection ended" ∷ "reached the max retries" ∷ "command aborted"
    ∷ "failed to refresh slots cache" ∷ "none of startup nodes" ∷ "none of the startup nodes" ∷ []

is_name : String → Option String → Bool
is_name name none = false
is_name name (some n) = n == name

unfoldable pub is_connection : Cause → Bool
unfolding has_code mentions message_of is_name
is_connection cause =
    is_name "MaxRetriesPerRequestError" cause.name
    || is_name "AbortError" cause.name
    || has_code connection_codes cause.code
    || mentions connection_words (message_of cause)

unfoldable pub map_error : String → Cause → RedisError
unfolding error_of
map_error command cause = error_of (is_connection cause) command cause

-- What `exec` resolves to: null, or for each command an error or a reply.
abbrev pub Results : Type 0
Results = Option (List (Option Cause × RespValue))

-- `results.find(([err]) => err != null)`
unfoldable pub find_failed : List (Option Cause × RespValue) → Option Cause
find_failed [] = none
find_failed ((none, value) ∷ results) = find_failed results
find_failed ((some cause, value) ∷ results) = some cause

-- `toArg` keeps a text, and takes bytes as a buffer: an argument is passed on as it is.
module _ {W : Type 0} (send_command : String → List Arg → Promised W RespValue)
    (exec : List (String × List Arg) → Promised W Results) where
  unfoldable pub send : RedisCommand → Effect W RedisError RespValue
  unfolding map_error
  send c = try_promise (map_error c.name) (send_command c.name c.args)

  unfoldable pub found :
      List (Option Cause × RespValue) → Option Cause → Effect W RedisError (List RespValue)
  found results none = pure (map (λ r. r.1) results)
  found results (some cause) = raise (map_error "PIPELINE" cause)

  unfoldable pub settle : Results → Effect W RedisError (List RespValue)
  unfolding find_failed found
  settle none = pure []
  settle (some results) = found results (find_failed results)

  unfoldable pub pipeline : List RedisCommand → Effect W RedisError (List RespValue)
  unfolding map_error settle
  pipeline commands =
      try_promise (map_error "PIPELINE") (exec (map (λ c. (to_lower_case c.name, c.args)) commands))
      >>= settle
