-- ===== src/Cmd/Keys.antt =====
-- The builders for keys, hashes, sets and sorted sets (RedisCommand.ts).
use redfx.Common.{String, List, [], ◌∷◌}
use redfx.Js.Number.{Number, number_text}
use redfx.Js.Object.{Obj}
use redfx.Effect.{Exit, map_exit}
use redfx.Durations.{Durations}
use redfx.RedisCommand.{
  Arg, RedisCommand, make, command, hash_entries_args, zadd_args, format_score, SetCommandOptions,
  set_args, expiry_seconds,
}

unfoldable pub get : String → RedisCommand
get key = command "GET" (key ∷ [])

unfoldable pub get_delete : String → RedisCommand
get_delete key = command "GETDEL" (key ∷ [])

unfoldable pub del : List String → RedisCommand
del keys = command "DEL" keys

unfoldable pub exists : List String → RedisCommand
exists keys = command "EXISTS" keys

unfoldable pub incr : String → RedisCommand
incr key = command "INCR" (key ∷ [])

unfoldable pub decr : String → RedisCommand
decr key = command "DECR" (key ∷ [])

unfoldable pub incr_by : String → Number → RedisCommand
incr_by key by = command "INCRBY" (key ∷ number_text by ∷ [])

unfoldable pub decr_by : String → Number → RedisCommand
decr_by key by = command "DECRBY" (key ∷ number_text by ∷ [])

unfoldable pub ttl : String → RedisCommand
ttl key = command "TTL" (key ∷ [])

unfoldable pub mget : List String → RedisCommand
mget keys = command "MGET" keys

unfoldable pub publish : String → String → RedisCommand
publish channel message = command "PUBLISH" (channel ∷ message ∷ [])

unfoldable pub hset : String → Obj String → RedisCommand
hset key entries = command "HSET" (key ∷ hash_entries_args entries)

unfoldable pub hget : String → String → RedisCommand
hget key field = command "HGET" (key ∷ field ∷ [])

unfoldable pub hget_all : String → RedisCommand
hget_all key = command "HGETALL" (key ∷ [])

unfoldable pub hdel : String → List String → RedisCommand
hdel key fields = command "HDEL" (key ∷ fields)

unfoldable pub hexists : String → String → RedisCommand
hexists key field = command "HEXISTS" (key ∷ field ∷ [])

unfoldable pub hincr_by : String → String → Number → RedisCommand
hincr_by key field by = command "HINCRBY" (key ∷ field ∷ number_text by ∷ [])

unfoldable pub hkeys : String → RedisCommand
hkeys key = command "HKEYS" (key ∷ [])

unfoldable pub hvals : String → RedisCommand
hvals key = command "HVALS" (key ∷ [])

unfoldable pub hlen : String → RedisCommand
hlen key = command "HLEN" (key ∷ [])

unfoldable pub hmget : String → List String → RedisCommand
hmget key fields = command "HMGET" (key ∷ fields)

unfoldable pub sadd : String → List String → RedisCommand
sadd key members = command "SADD" (key ∷ members)

unfoldable pub srem : String → List String → RedisCommand
srem key members = command "SREM" (key ∷ members)

unfoldable pub smembers : String → RedisCommand
smembers key = command "SMEMBERS" (key ∷ [])

unfoldable pub sismember : String → String → RedisCommand
sismember key member = command "SISMEMBER" (key ∷ member ∷ [])

unfoldable pub scard : String → RedisCommand
scard key = command "SCARD" (key ∷ [])

unfoldable pub spop : String → RedisCommand
spop key = command "SPOP" (key ∷ [])

unfoldable pub zadd {ℓ} : {E : Type ℓ} → String → List (Number × String) → Exit E RedisCommand
zadd key entries = map_exit (λ args. command "ZADD" (key ∷ args)) (zadd_args entries)

unfoldable pub zrem : String → List String → RedisCommand
zrem key members = command "ZREM" (key ∷ members)

unfoldable pub zscore : String → String → RedisCommand
zscore key member = command "ZSCORE" (key ∷ member ∷ [])

unfoldable pub zincr_by {ℓ} : {E : Type ℓ} → String → Number → String → Exit E RedisCommand
zincr_by key by member =
    map_exit (λ score. command "ZINCRBY" (key ∷ score ∷ member ∷ [])) (format_score by)

unfoldable pub zcard : String → RedisCommand
zcard key = command "ZCARD" (key ∷ [])

unfoldable pub zrank : String → String → RedisCommand
zrank key member = command "ZRANK" (key ∷ member ∷ [])

unfoldable pub zrange : String → Number → Number → RedisCommand
zrange key start stop = command "ZRANGE" (key ∷ number_text start ∷ number_text stop ∷ [])

unfoldable pub zrange_with_scores : String → Number → Number → RedisCommand
zrange_with_scores key start stop =
    command "ZRANGE" (key ∷ number_text start ∷ number_text stop ∷ "WITHSCORES" ∷ [])

unfoldable pub raw : String → List Arg → RedisCommand
raw name args = make name args

module _ (durations : Durations) where
  open durations use {DurationInput}

  unfoldable pub set : String → String → SetCommandOptions DurationInput → RedisCommand
  set key value opts = command "SET" (set_args durations key value opts)

  unfoldable pub expire : String → DurationInput → RedisCommand
  expire key ttl = command "EXPIRE" (key ∷ expiry_seconds durations ttl ∷ [])
