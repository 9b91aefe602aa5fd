-- ===== src/Adapter/Bun.antt =====
-- The Bun adapter (packages/bun/src/index.ts).
pub mod Subscribe
pub mod Connect
use redfx.Common.{String, Bool, ◌||◌, List, [], ◌∷◌, map}
use redfx.Js.Utf8
use redfx.Resp.{RespValue}
use redfx.RedisError.{RedisError}
use redfx.Run.{Effect}
use redfx.RedisCommand.{Arg, text, binary, RedisCommand}
use redfx.Adapter.Cause.{Cause, message_of, has_code, mentions, error_of, Promised, try_promise}

-- Binary arguments are decoded as UTF-8.
unfoldable pub to_str : Arg → String
to_str (text s) = s
to_str (binary bytes) = Utf8.decode bytes

abbrev connection_codes : List String
connection_codes =
    "ERR_REDIS_CONNECTION_CLOSED" ∷ "ECONNREFUSED" ∷ "ECONNRESET" ∷ "ETIMEDOUT" ∷ "ENOTFOUND" ∷ []

abbrev connection_words : List String
connection_words =
    "connection closed" ∷ "connection is closed" ∷ "connection refused"
    ∷ "err_redis_connection_closed" ∷ []

unfoldable pub is_connection : Cause → Bool
unfolding has_code mentions message_of
is_connection cause =
    has_code connection_codes cause.code || mentions connection_words (message_of cause)

unfoldable pub map_error : String → Cause → RedisError
unfolding error_of
map_error command cause = error_of (is_connection cause) command cause

-- `client.send` and the order-preserving `Promise.all` of it, over the texts of the arguments.
module _ {W : Type 0} (client_send : String → List String → Promised W RespValue)
    (client_all : List (String × List String) → Promised W (List RespValue)) where
  unfoldable pub send : RedisCommand → Effect W RedisError RespValue
  unfolding map_error to_str
  send c = try_promise (map_error c.name) (client_send c.name (map to_str c.args))

  unfoldable pub pipeline : List RedisCommand → Effect W RedisError (List RespValue)
  unfolding map_error to_str
  pipeline commands =
      try_promise (map_error "PIPELINE")
        (client_all (map (λ c. (c.name, map to_str c.args)) commands))
