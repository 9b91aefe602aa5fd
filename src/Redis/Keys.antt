-- ===== src/Redis/Keys.antt =====
-- The commands on plain keys (`makeRedis` of Redis.ts).
use redfx.Common.{String, Bool, List, [], ◌∷◌, Option}
use redfx.Js.Number.{Number, number_text}
use redfx.Js.Object.{Obj}
use redfx.Durations.{Durations}
use redfx.Resp.{RespValue}
use redfx.RedisError.{RedisError}
use redfx.Effect.{for_each, ◌>>=◌ as bind}
use redfx.Run.{Effect, pure, decoded, as_void, ◌>>=◌}
use redfx.Connection.{ConnectionService}
use redfx.RedisCommand.{
  Arg, RedisCommand, make, command, hash_entries_args, SetCommandOptions, set_args, expiry_seconds,
}
use redfx.Decode.{
  Decoded, decode_option_string, decode_number, decode_boolean, decode_ttl_seconds, decode_array,
  decode_string,
}
use redfx.Redis.KeyTtl.{KeyTtl, decode_key_ttl}

module _ {W : Type 0} (conn : ConnectionService W) where
  -- `conn.send(command).pipe(Effect.flatMap(decode))`
  unfoldable pub ask : {A : Type 0} → (RespValue → Decoded A) → RedisCommand → Effect W RedisError A
  ask decode c = conn.send c >>= λ v. decoded (decode v)

  unfoldable pub get : String → Effect W RedisError (Option String)
  get key = ask decode_option_string (command "GET" (key ∷ []))

  unfoldable pub get_delete : String → Effect W RedisError (Option String)
  get_delete key = ask decode_option_string (command "GETDEL" (key ∷ []))

  unfoldable pub del : List String → Effect W RedisError Number
  del keys = ask decode_number (command "DEL" keys)

  unfoldable pub exists : String → Effect W RedisError Bool
  exists key = ask decode_boolean (command "EXISTS" (key ∷ []))

  unfoldable pub incr : String → Effect W RedisError Number
  incr key = ask decode_number (command "INCR" (key ∷ []))

  unfoldable pub decr : String → Effect W RedisError Number
  decr key = ask decode_number (command "DECR" (key ∷ []))

  unfoldable pub incr_by : String → Number → Effect W RedisError Number
  incr_by key by = ask decode_number (command "INCRBY" (key ∷ number_text by ∷ []))

  unfoldable pub decr_by : String → Number → Effect W RedisError Number
  decr_by key by = ask decode_number (command "DECRBY" (key ∷ number_text by ∷ []))

  -- `decodeArray`, then `decodeOptionString` of each element
  unfoldable pub option_strings : RespValue → Decoded (List (Option String))
  option_strings v = bind (decode_array v) (for_each decode_option_string)

  unfoldable pub mget : List String → Effect W RedisError (List (Option String))
  mget keys = ask option_strings (command "MGET" keys)

  unfoldable pub mset : Obj String → Effect W RedisError (Unit {0})
  mset [] = pure tt
  mset (e ∷ entries) = as_void (conn.send (command "MSET" (hash_entries_args (e ∷ entries))))

  unfoldable pub publish : String → String → Effect W RedisError Number
  publish channel message = ask decode_number (command "PUBLISH" (channel ∷ message ∷ []))

  unfoldable pub ping : Effect W RedisError String
  ping = ask decode_string (command "PING" [])

  unfoldable pub call : String → List Arg → Effect W RedisError RespValue
  call name args = conn.send (make name args)

  unfoldable pub pipeline : List RedisCommand → Effect W RedisError (List RespValue)
  pipeline commands = conn.pipeline commands

  module _ (durations : Durations) where
    open durations use {DurationInput, Duration, seconds}

    unfoldable pub set :
        String → String → SetCommandOptions DurationInput → Effect W RedisError (Unit {0})
    set key value opts = as_void (conn.send (command "SET" (set_args durations key value opts)))

    unfoldable pub expire : String → DurationInput → Effect W RedisError Bool
    expire key ttl = ask decode_boolean (command "EXPIRE" (key ∷ expiry_seconds durations ttl ∷ []))

    unfoldable pub ttl : String → Effect W RedisError (Option Duration)
    ttl key = ask (decode_ttl_seconds seconds) (command "TTL" (key ∷ []))

    unfoldable pub ttl_state : String → Effect W RedisError (KeyTtl Duration)
    ttl_state key = ask (decode_key_ttl seconds) (command "TTL" (key ∷ []))
