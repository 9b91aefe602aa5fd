-- ===== src/Redis/Service.antt =====
-- The interface `RedisService` of Redis.ts, without its streams and `subscribe`.
use redfx.Common.{String, Bool, List, Option}
use redfx.Js.Number.{Number}
use redfx.Js.Object.{Obj}
use redfx.Durations.{Durations}
use redfx.Resp.{RespValue}
use redfx.RedisError.{RedisError}
use redfx.Run.{Effect}
use redfx.RedisCommand.{RedisCommand, Arg, TrimArgs, XReadArgs, SetCommandOptions}
use redfx.Cmd.Streams.{XAddOptions, PendingOptions}
use redfx.Decode.{RawStreamEntry, StreamRead, PendingSummary, PendingEntry, XAutoclaimResult}
use redfx.Redis.KeyTtl.{KeyTtl}

pub record RedisService (W : Type 0) (durations : Durations) : Type 0 where
  pub get : String → Effect W RedisError (Option String)
  pub set :
      String → String → SetCommandOptions durations.DurationInput → Effect W RedisError (Unit {0})
  pub get_delete : String → Effect W RedisError (Option String)
  pub del : List String → Effect W RedisError Number
  pub exists : String → Effect W RedisError Bool
  pub expire : String → durations.DurationInput → Effect W RedisError Bool
  pub ttl : String → Effect W RedisError (Option durations.Duration)
  pub ttl_state : String → Effect W RedisError (KeyTtl durations.Duration)
  pub incr : String → Effect W RedisError Number
  pub decr : String → Effect W RedisError Number
  pub incr_by : String → Number → Effect W RedisError Number
  pub decr_by : String → Number → Effect W RedisError Number
  pub mget : List String → Effect W RedisError (List (Option String))
  pub mset : Obj String → Effect W RedisError (Unit {0})
  pub hset : String → Obj String → Effect W RedisError Number
  pub hget : String → String → Effect W RedisError (Option String)
  pub hget_all : String → Effect W RedisError (Obj String)
  pub hdel : String → List String → Effect W RedisError Number
  pub hexists : String → String → Effect W RedisError Bool
  pub hincr_by : String → String → Number → Effect W RedisError Number
  pub hkeys : String → Effect W RedisError (List String)
  pub hvals : String → Effect W RedisError (List String)
  pub hlen : String → Effect W RedisError Number
  pub hmget : String → List String → Effect W RedisError (List (Option String))
  pub sadd : String → List String → Effect W RedisError Number
  pub srem : String → List String → Effect W RedisError Number
  pub smembers : String → Effect W RedisError (List String)
  pub sismember : String → String → Effect W RedisError Bool
  pub scard : String → Effect W RedisError Number
  pub spop : String → Effect W RedisError (Option String)
  pub zadd : String → List (Number × String) → Effect W RedisError Number
  pub zrem : String → List String → Effect W RedisError Number
  pub zscore : String → String → Effect W RedisError (Option Number)
  pub zincr_by : String → Number → String → Effect W RedisError Number
  pub zcard : String → Effect W RedisError Number
  pub zrank : String → String → Effect W RedisError (Option Number)
  pub zrange : String → Number → Number → Effect W RedisError (List String)
  pub zrange_with_scores : String → Number → Number → Effect W RedisError (List (String × Number))
  pub publish : String → String → Effect W RedisError Number
  pub ping : Effect W RedisError String
  pub call : String → List Arg → Effect W RedisError RespValue
  pub pipeline : List RedisCommand → Effect W RedisError (List RespValue)
  pub xadd : String → Obj String → XAddOptions → Effect W RedisError String
  pub xlen : String → Effect W RedisError Number
  pub xrange :
      String
      → Option String
      → Option String
      → Option Number
      → Effect W RedisError (List RawStreamEntry)
  pub xrevrange :
      String
      → Option String
      → Option String
      → Option Number
      → Effect W RedisError (List RawStreamEntry)
  pub xdel : String → List String → Effect W RedisError Number
  pub xtrim : String → TrimArgs → Effect W RedisError Number
  pub xread :
      List (String × String)
      → XReadArgs durations.DurationInput
      → Effect W RedisError (List StreamRead)
  pub xgroup_create : String → String → Option String → Bool → Effect W RedisError (Unit {0})
  pub xack : String → String → List String → Effect W RedisError Number
  pub xread_group :
      String
      → String
      → List (String × String)
      → XReadArgs durations.DurationInput
      → Bool
      → Effect W RedisError (List StreamRead)
  pub xpending : String → String → Effect W RedisError PendingSummary
  pub xpending_extended :
      String
      → String
      → PendingOptions durations.DurationInput
      → Effect W RedisError (List PendingEntry)
  pub xclaim :
      String
      → String
      → String
      → durations.DurationInput
      → List String
      → Effect W RedisError (List RawStreamEntry)
  pub xautoclaim :
      String
      → String
      → String
      → durations.DurationInput
      → Option String
      → Option Number
      → Effect W RedisError XAutoclaimResult
  pub xinfo_stream : String → Effect W RedisError (Obj String)
  pub xinfo_groups : String → Effect W RedisError (List (Obj String))
