-- ===== src/Connection.antt =====
-- The port of packages/core/src/Connection.ts. The parts that are streams (`subscribe` and
-- `dedicated`) are modelled where they are consumed.
pub mod Pool
pub mod Timeout
mod Tests
use redfx.Common.{String, List, [], ◌∷◌}
use redfx.Effect.{Exit, succeed}
use redfx.Run.{Effect}
use redfx.Resp.{RespValue}
use redfx.RedisError.{RedisError}
use redfx.RedisCommand.{RedisCommand}

-- A message of a subscription.
pub record PushMessage : Type 0 where
  pub channel : String
  pub message : String

pub record ConnectionService (W : Type 0) : Type 0 where
  pub send : RedisCommand → Effect W RedisError RespValue
  pub pipeline : List RedisCommand → Effect W RedisError (List RespValue)
  pub close : Effect W RedisError (Unit {0})

-- A connection that writes down what it sends, the last command first; `reply` answers a command
-- from those sent before it.
module _ (reply : List RedisCommand → RedisCommand → Exit RedisError RespValue) where
  abbrev recorded_send : RedisCommand → Effect (List RedisCommand) RedisError RespValue
  recorded_send c log = (reply log c, c ∷ log)

  abbrev pub recorded : ConnectionService (List RedisCommand)
  recorded = record {
    send = recorded_send;
    pipeline = λ cs log. (succeed [], log);
    close = λ log. (succeed tt, log);
  }
