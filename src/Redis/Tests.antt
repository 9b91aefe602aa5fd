-- ===== src/Redis/Tests.antt =====
-- The theorems about what the service sends at concrete inputs.
use redfx.Common.{ℕ, false, none, some, List, [], ◌∷◌}
use redfx.Js.Number.{of_ℕ}
use redfx.Resp.{RespValue, num}
use redfx.Effect.{Exit, succeed}
use redfx.Connection.{ConnectionService, recorded}
use redfx.RedisCommand.{RedisCommand, SetCommandOptions}
use redfx.Durations.Whole.{whole}
use redfx.Redis.Collections.{zadd}
use redfx.Redis.Keys as Keys
use redfx.Redis.Collections as Collections
use redfx.Redis.Streams as Streams
use redfx.Cmd.Keys as CmdKeys
use redfx.Cmd.Streams as CmdStreams
use redfx.RedisError.{RedisError}
use redfx.Redis.Sends.{
  Sends, SendsMade, SendsNothing, keys_send_commands, collections_send_commands,
}

abbrev two : List RedisCommand → RedisCommand → Exit RedisError RespValue
two log c = succeed (num (of_ℕ 2))

abbrev conn : ConnectionService (List RedisCommand)
conn = recorded two

abbrev opts : SetCommandOptions ℕ
opts = record { ex = some 5000; px = none; keep_ttl = false }

keys_send_commands_example :
    Sends two (Keys.get conn "k") (CmdKeys.get "k")
    × Sends two (Keys.get_delete conn "k") (CmdKeys.get_delete "k")
    × Sends two (Keys.del conn ("a" ∷ "b" ∷ [])) (CmdKeys.del ("a" ∷ "b" ∷ []))
    × Sends two (Keys.exists conn "k") (CmdKeys.exists ("k" ∷ []))
    × Sends two (Keys.incr conn "k") (CmdKeys.incr "k")
    × Sends two (Keys.decr conn "k") (CmdKeys.decr "k")
    × Sends two (Keys.incr_by conn "k" (of_ℕ 3)) (CmdKeys.incr_by "k" (of_ℕ 3))
    × Sends two (Keys.decr_by conn "k" (of_ℕ 3)) (CmdKeys.decr_by "k" (of_ℕ 3))
    × Sends two (Keys.mget conn ("a" ∷ "b" ∷ [])) (CmdKeys.mget ("a" ∷ "b" ∷ []))
    × Sends two (Keys.publish conn "k" "v") (CmdKeys.publish "k" "v")
    × Sends two (Collections.hget conn "k" "f") (CmdKeys.hget "k" "f")
    × Sends two (Collections.hget_all conn "k") (CmdKeys.hget_all "k")
    × Sends two (Collections.hdel conn "k" ("a" ∷ "b" ∷ [])) (CmdKeys.hdel "k" ("a" ∷ "b" ∷ []))
    × Sends two (Collections.hexists conn "k" "f") (CmdKeys.hexists "k" "f")
    × Sends two (Collections.hincr_by conn "k" "f" (of_ℕ 3)) (CmdKeys.hincr_by "k" "f" (of_ℕ 3))
    × Sends two (Collections.hkeys conn "k") (CmdKeys.hkeys "k")
    × Sends two (Collections.hvals conn "k") (CmdKeys.hvals "k")
    × Sends two (Collections.hlen conn "k") (CmdKeys.hlen "k")
    × Sends two (Collections.hmget conn "k" ("a" ∷ "b" ∷ [])) (CmdKeys.hmget "k" ("a" ∷ "b" ∷ []))
    × Sends two (Keys.set conn whole "k" "v" opts) (CmdKeys.set whole "k" "v" opts)
    × Sends two (Keys.expire conn whole "k" 5000) (CmdKeys.expire whole "k" 5000)
    × Sends two (Keys.ttl conn whole "k") (CmdKeys.ttl "k")
    × Sends two (Keys.ttl_state conn whole "k") (CmdKeys.ttl "k")
keys_send_commands_example =
    keys_send_commands two whole "k" "f" "v" (of_ℕ 3) ("a" ∷ "b" ∷ []) opts 5000

collections_send_commands_example :
    Sends two (Collections.srem conn "k" ("n" ∷ [])) (CmdKeys.srem "k" ("n" ∷ []))
    × Sends two (Collections.smembers conn "k") (CmdKeys.smembers "k")
    × Sends two (Collections.sismember conn "k" "m") (CmdKeys.sismember "k" "m")
    × Sends two (Collections.scard conn "k") (CmdKeys.scard "k")
    × Sends two (Collections.spop conn "k") (CmdKeys.spop "k")
    × Sends two (Collections.zrem conn "k" ("n" ∷ [])) (CmdKeys.zrem "k" ("n" ∷ []))
    × Sends two (Collections.zscore conn "k" "m") (CmdKeys.zscore "k" "m")
    × Sends two (Collections.zcard conn "k") (CmdKeys.zcard "k")
    × Sends two (Collections.zrank conn "k" "m") (CmdKeys.zrank "k" "m")
    × Sends two
        (Collections.zrange conn "k" (of_ℕ 0) (of_ℕ 9))
        (CmdKeys.zrange "k" (of_ℕ 0) (of_ℕ 9))
    × Sends two
        (Collections.zrange_with_scores conn "k" (of_ℕ 0) (of_ℕ 9))
        (CmdKeys.zrange_with_scores "k" (of_ℕ 0) (of_ℕ 9))
    × Sends two
        (Collections.hset conn "k" (("a", "x") ∷ (("b", "y") ∷ [])))
        (CmdKeys.hset "k" (("a", "x") ∷ (("b", "y") ∷ [])))
    × Sends two (Collections.sadd conn "k" ("m" ∷ ("n" ∷ []))) (CmdKeys.sadd "k" ("m" ∷ ("n" ∷ [])))
    × SendsMade two
        (Collections.zadd conn "k" ((of_ℕ 0, "m") ∷ (of_ℕ 1, "n") ∷ []))
        (CmdKeys.zadd "k" ((of_ℕ 0, "m") ∷ (of_ℕ 1, "n") ∷ []))
    × SendsMade two (Collections.zincr_by conn "k" (of_ℕ 0) "m") (CmdKeys.zincr_by "k" (of_ℕ 0) "m")
    × Sends two (Streams.xdel conn "k" ("m" ∷ ("n" ∷ []))) (CmdStreams.xdel "k" ("m" ∷ ("n" ∷ [])))
    × Sends two
        (Streams.xack conn "k" "g" ("m" ∷ ("n" ∷ [])))
        (CmdStreams.xack "k" "g" ("m" ∷ ("n" ∷ [])))
    × SendsNothing two (Collections.hset conn "k" [])
    × SendsNothing two (Collections.sadd conn "k" [])
    × SendsNothing two (Collections.zadd conn "k" [])
    × SendsNothing two (Streams.xdel conn "k" [])
    × SendsNothing two (Streams.xack conn "k" "g" [])
    × SendsNothing two (Keys.mset conn [])
collections_send_commands_example =
    collections_send_commands two "k" "g" "m" ("n" ∷ []) (of_ℕ 0) (of_ℕ 9) ("a", "x")
      (("b", "y") ∷ []) ((of_ℕ 1, "n") ∷ [])
