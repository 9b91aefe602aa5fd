-- ===== src/Redis/Collections.antt =====
-- The commands on hashes, sets and sorted sets (`makeRedis` of Redis.ts).
use redfx.Common.{String, Bool, List, [], ◌∷◌, Option}
use redfx.Js.Number.{Number, number_text, of_ℕ}
use redfx.Js.Object.{Obj}
use redfx.RedisError.{RedisError}
use redfx.Run.{Effect, pure, lift, ◌>>=◌}
use redfx.Connection.{ConnectionService}
use redfx.RedisCommand.{command, hash_entries_args, zadd_args, format_score}
use redfx.Decode.{
  decode_option_string, decode_number, decode_boolean, decode_record, decode_string_array,
  decode_option_float, decode_option_number, decode_float, decode_scored_members,
}
use redfx.Redis.Keys.{ask, option_strings}

module _ {W : Type 0} (conn : ConnectionService W) where
  unfoldable pub hset : String → Obj String → Effect W RedisError Number
  hset key [] = pure (of_ℕ 0)
  hset key (e ∷ entries) =
      ask conn decode_number (command "HSET" (key ∷ hash_entries_args (e ∷ entries)))

  unfoldable pub hget : String → String → Effect W RedisError (Option String)
  hget key field = ask conn decode_option_string (command "HGET" (key ∷ field ∷ []))

  unfoldable pub hget_all : String → Effect W RedisError (Obj String)
  hget_all key = ask conn decode_record (command "HGETALL" (key ∷ []))

  unfoldable pub hdel : String → List String → Effect W RedisError Number
  hdel key fields = ask conn decode_number (command "HDEL" (key ∷ fields))

  unfoldable pub hexists : String → String → Effect W RedisError Bool
  hexists key field = ask conn decode_boolean (command "HEXISTS" (key ∷ field ∷ []))

  unfoldable pub hincr_by : String → String → Number → Effect W RedisError Number
  hincr_by key field by =
      ask conn decode_number (command "HINCRBY" (key ∷ field ∷ number_text by ∷ []))

  unfoldable pub hkeys : String → Effect W RedisError (List String)
  hkeys key = ask conn decode_string_array (command "HKEYS" (key ∷ []))

  unfoldable pub hvals : String → Effect W RedisError (List String)
  hvals key = ask conn decode_string_array (command "HVALS" (key ∷ []))

  unfoldable pub hlen : String → Effect W RedisError Number
  hlen key = ask conn decode_number (command "HLEN" (key ∷ []))

  unfoldable pub hmget : String → List String → Effect W RedisError (List (Option String))
  hmget key fields = ask conn (option_strings conn) (command "HMGET" (key ∷ fields))

  unfoldable pub sadd : String → List String → Effect W RedisError Number
  sadd key [] = pure (of_ℕ 0)
  sadd key (m ∷ members) = ask conn decode_number (command "SADD" (key ∷ m ∷ members))

  unfoldable pub srem : String → List String → Effect W RedisError Number
  srem key members = ask conn decode_number (command "SREM" (key ∷ members))

  unfoldable pub smembers : String → Effect W RedisError (List String)
  smembers key = ask conn decode_string_array (command "SMEMBERS" (key ∷ []))

  unfoldable pub sismember : String → String → Effect W RedisError Bool
  sismember key member = ask conn decode_boolean (command "SISMEMBER" (key ∷ member ∷ []))

  unfoldable pub scard : String → Effect W RedisError Number
  scard key = ask conn decode_number (command "SCARD" (key ∷ []))

  unfoldable pub spop : String → Effect W RedisError (Option String)
  spop key = ask conn decode_option_string (command "SPOP" (key ∷ []))

  zadd_some : String → List String → Effect W RedisError Number
  zadd_some key [] = pure (of_ℕ 0)
  zadd_some key (a ∷ args) = ask conn decode_number (command "ZADD" (key ∷ a ∷ args))

  -- The arguments are formatted first: a score that is NaN throws before anything is sent.
  unfoldable pub zadd : String → List (Number × String) → Effect W RedisError Number
  unfolding zadd_some
  zadd key entries = lift (zadd_args entries) >>= zadd_some key

  unfoldable pub zrem : String → List String → Effect W RedisError Number
  zrem key members = ask conn decode_number (command "ZREM" (key ∷ members))

  unfoldable pub zscore : String → String → Effect W RedisError (Option Number)
  zscore key member = ask conn decode_option_float (command "ZSCORE" (key ∷ member ∷ []))

  unfoldable pub zincr_by : String → Number → String → Effect W RedisError Number
  zincr_by key by member = do
    score ← lift (format_score by)
    ask conn decode_float (command "ZINCRBY" (key ∷ score ∷ member ∷ []))

  unfoldable pub zcard : String → Effect W RedisError Number
  zcard key = ask conn decode_number (command "ZCARD" (key ∷ []))

  unfoldable pub zrank : String → String → Effect W RedisError (Option Number)
  zrank key member = ask conn decode_option_number (command "ZRANK" (key ∷ member ∷ []))

  unfoldable pub zrange : String → Number → Number → Effect W RedisError (List String)
  zrange key start stop =
      ask conn decode_string_array
        (command "ZRANGE" (key ∷ number_text start ∷ number_text stop ∷ []))

  unfoldable pub zrange_with_scores :
      String → Number → Number → Effect W RedisError (List (String × Number))
  zrange_with_scores key start stop =
      ask conn decode_scored_members
        (command "ZRANGE" (key ∷ number_text start ∷ number_text stop ∷ "WITHSCORES" ∷ []))
