-- ===== src/Redis/Sends.antt =====
-- The commands that the service sends, and the ones that `Cmd` builds for a pipeline.
use redfx.Common.{String, ◌≡◌, refl, List, [], ◌∷◌}
use redfx.Js.Number.{Number}
use redfx.Js.Object.{Obj}
use redfx.Resp.{RespValue}
use redfx.RedisError.{RedisError}
use redfx.Effect.{Exit, succeed, fail, die, Exit-cases, succeeded, failed, died}
use redfx.Run.{Effect, continue, decoded, as_void}
use redfx.RedisCommand.{RedisCommand, SetCommandOptions, zadd_args, format_score}
use redfx.Durations.{Durations}
use redfx.Decode.{Decoded}
use redfx.Connection.{ConnectionService, recorded}
use redfx.Cmd.Keys as CmdKeys
use redfx.Cmd.Streams as CmdStreams
use redfx.Redis.Keys as Keys
use redfx.Redis.Collections as Collections
use redfx.Redis.Streams as Streams
use redfx.Redis.Keys.{ask}

module _ (reply : List RedisCommand → RedisCommand → Exit RedisError RespValue) where
  abbrev conn : ConnectionService (List RedisCommand)
  conn = recorded reply

  -- An operation that sends this one command, whatever the reply, and whether it decodes or not.
  abbrev pub Sends : {A : Type 0} → Effect (List RedisCommand) RedisError A → RedisCommand → Type 0
  Sends m c = (log : List RedisCommand) → (m log).1 ≡ c ∷ log

  decoded-Sends :
      {A : Type 0} (decode : RespValue → Decoded A) (r : Exit RedisError RespValue)
      (log : List RedisCommand)
      → (continue r (λ v. decoded {W = List RedisCommand} (decode v)) log).1 ≡ log
  decoded-Sends decode (succeed v) log = refl
  decoded-Sends decode (fail e) log = refl
  decoded-Sends decode (die d) log = refl

  pub ask-Sends :
      {A : Type 0} (decode : RespValue → Decoded A) (c : RedisCommand) → Sends (ask conn decode c) c
  unfolding ask
  ask-Sends decode c log = decoded-Sends decode (reply log c) (c ∷ log)

  void-Sends : (c : RedisCommand) → Sends (as_void (conn.send c)) c
  void-Sends c log = elim (Exit-cases (reply log c)) [
    | succeeded v answer ↦ rw answer refl
    | failed e answer ↦ rw answer refl
    | died d answer ↦ rw answer refl
  ]

  -- Each operation of the service on keys and hashes that has a builder in `Cmd` sends the one command
  -- that the builder makes from the same arguments, whatever the reply: HSET, which may have nothing to
  -- send, is with the collections; MSET has no builder; `ttl` and `ttlState` both send that of `Cmd.ttl`.
  pub keys_send_commands :
      (durations : Durations) (key field value : String) (by : Number) (fields : List String)
      (opts : SetCommandOptions durations.DurationInput) (lasts : durations.DurationInput)
      → Sends (Keys.get conn key) (CmdKeys.get key)
        × Sends (Keys.get_delete conn key) (CmdKeys.get_delete key)
        × Sends (Keys.del conn fields) (CmdKeys.del fields)
        × Sends (Keys.exists conn key) (CmdKeys.exists (key ∷ []))
        × Sends (Keys.incr conn key) (CmdKeys.incr key)
        × Sends (Keys.decr conn key) (CmdKeys.decr key)
        × Sends (Keys.incr_by conn key by) (CmdKeys.incr_by key by)
        × Sends (Keys.decr_by conn key by) (CmdKeys.decr_by key by)
        × Sends (Keys.mget conn fields) (CmdKeys.mget fields)
        × Sends (Keys.publish conn key value) (CmdKeys.publish key value)
        × Sends (Collections.hget conn key field) (CmdKeys.hget key field)
        × Sends (Collections.hget_all conn key) (CmdKeys.hget_all key)
        × Sends (Collections.hdel conn key fields) (CmdKeys.hdel key fields)
        × Sends (Collections.hexists conn key field) (CmdKeys.hexists key field)
        × Sends (Collections.hincr_by conn key field by) (CmdKeys.hincr_by key field by)
        × Sends (Collections.hkeys conn key) (CmdKeys.hkeys key)
        × Sends (Collections.hvals conn key) (CmdKeys.hvals key)
        × Sends (Collections.hlen conn key) (CmdKeys.hlen key)
        × Sends (Collections.hmget conn key fields) (CmdKeys.hmget key fields)
        × Sends (Keys.set conn durations key value opts) (CmdKeys.set durations key value opts)
        × Sends (Keys.expire conn durations key lasts) (CmdKeys.expire durations key lasts)
        × Sends (Keys.ttl conn durations key) (CmdKeys.ttl key)
        × Sends (Keys.ttl_state conn durations key) (CmdKeys.ttl key)
  unfolding Keys.get Keys.get_delete Keys.del Keys.exists Keys.incr Keys.decr Keys.incr_by
      Keys.decr_by Keys.mget Keys.publish Collections.hget Collections.hget_all Collections.hdel
      Collections.hexists Collections.hincr_by Collections.hkeys Collections.hvals Collections.hlen
      Collections.hmget CmdKeys.get CmdKeys.get_delete CmdKeys.del CmdKeys.exists CmdKeys.incr
      CmdKeys.decr CmdKeys.incr_by CmdKeys.decr_by CmdKeys.mget CmdKeys.publish CmdKeys.hget
      CmdKeys.hget_all CmdKeys.hdel CmdKeys.hexists CmdKeys.hincr_by CmdKeys.hkeys CmdKeys.hvals
      CmdKeys.hlen CmdKeys.hmget Keys.set Keys.expire Keys.ttl Keys.ttl_state CmdKeys.set
      CmdKeys.expire CmdKeys.ttl
  keys_send_commands durations key field value by fields opts lasts = (
    ask-Sends _ _,
    ask-Sends _ _,
    ask-Sends _ _,
    ask-Sends _ _,
    ask-Sends _ _,
    ask-Sends _ _,
    ask-Sends _ _,
    ask-Sends _ _,
    ask-Sends _ _,
    ask-Sends _ _,
    ask-Sends _ _,
    ask-Sends _ _,
    ask-Sends _ _,
    ask-Sends _ _,
    ask-Sends _ _,
    ask-Sends _ _,
    ask-Sends _ _,
    ask-Sends _ _,
    ask-Sends _ _,
    void-Sends _,
    ask-Sends _ _,
    ask-Sends _ _,
    ask-Sends _ _,
  )

  abbrev pub SendsNothing : {A : Type 0} → Effect (List RedisCommand) RedisError A → Type 0
  SendsNothing m = (log : List RedisCommand) → (m log).1 ≡ log

  -- What a builder that may throw makes is sent; where it throws, nothing is.
  abbrev pub SendsMade :
      {A : Type 0} → Effect (List RedisCommand) RedisError A → Exit RedisError RedisCommand → Type 0
  SendsMade m (succeed c) = Sends m c
  SendsMade m (fail e) = SendsNothing m
  SendsMade m (die d) = SendsNothing m

  zadd-SendsMade :
      (key : String) (scored : Number × String) (scores : List (Number × String))
      → SendsMade (Collections.zadd conn key (scored ∷ scores)) (CmdKeys.zadd key (scored ∷ scores))
  unfolding Collections.zadd CmdKeys.zadd zadd_args
  zadd-SendsMade key (score, member) scores =
      elim (Exit-cases {E = RedisError} (format_score score)) [
        | succeeded x formatted ↦ elim (Exit-cases {E = RedisError} (zadd_args scores)) [
          | succeeded args built ↦ rw (formatted, built) (ask-Sends _ _)
          | failed e built ↦ rw (formatted, built) (λ log. refl)
          | died d built ↦ rw (formatted, built) (λ log. refl)
        ]
        | failed e formatted ↦ rw formatted (λ log. refl)
        | died d formatted ↦ rw formatted (λ log. refl)
      ]

  zincr_by-SendsMade :
      (key : String) (by : Number) (member : String)
      → SendsMade (Collections.zincr_by conn key by member) (CmdKeys.zincr_by key by member)
  unfolding Collections.zincr_by CmdKeys.zincr_by
  zincr_by-SendsMade key by member = elim (Exit-cases {E = RedisError} (format_score by)) [
    | succeeded x formatted ↦ rw formatted (ask-Sends _ _)
    | failed e formatted ↦ rw formatted (λ log. refl)
    | died d formatted ↦ rw formatted (λ log. refl)
  ]

  -- The service's operations on sets and sorted sets, and HSET, SADD, ZADD, XDEL and XACK with something
  -- to send, each send the one command that the builder of the same name in `Cmd` makes, whatever the
  -- reply; where the builder of ZADD or ZINCRBY throws, on a score that is NaN, nothing is sent. With an
  -- empty list of fields, members or ids these five send nothing, and neither does MSET.
  pub collections_send_commands :
      (key group m : String) (ms : List String) (start stop : Number) (entry : String × String)
      (entries : Obj String) (scores : List (Number × String))
      → Sends (Collections.srem conn key ms) (CmdKeys.srem key ms)
        × Sends (Collections.smembers conn key) (CmdKeys.smembers key)
        × Sends (Collections.sismember conn key m) (CmdKeys.sismember key m)
        × Sends (Collections.scard conn key) (CmdKeys.scard key)
        × Sends (Collections.spop conn key) (CmdKeys.spop key)
        × Sends (Collections.zrem conn key ms) (CmdKeys.zrem key ms)
        × Sends (Collections.zscore conn key m) (CmdKeys.zscore key m)
        × Sends (Collections.zcard conn key) (CmdKeys.zcard key)
        × Sends (Collections.zrank conn key m) (CmdKeys.zrank key m)
        × Sends (Collections.zrange conn key start stop) (CmdKeys.zrange key start stop)
        × Sends
            (Collections.zrange_with_scores conn key start stop)
            (CmdKeys.zrange_with_scores key start stop)
        × Sends (Collections.hset conn key (entry ∷ entries)) (CmdKeys.hset key (entry ∷ entries))
        × Sends (Collections.sadd conn key (m ∷ ms)) (CmdKeys.sadd key (m ∷ ms))
        × SendsMade
            (Collections.zadd conn key ((start, m) ∷ scores))
            (CmdKeys.zadd key ((start, m) ∷ scores))
        × SendsMade (Collections.zincr_by conn key start m) (CmdKeys.zincr_by key start m)
        × Sends (Streams.xdel conn key (m ∷ ms)) (CmdStreams.xdel key (m ∷ ms))
        × Sends (Streams.xack conn key group (m ∷ ms)) (CmdStreams.xack key group (m ∷ ms))
        × SendsNothing (Collections.hset conn key [])
        × SendsNothing (Collections.sadd conn key [])
        × SendsNothing (Collections.zadd conn key [])
        × SendsNothing (Streams.xdel conn key [])
        × SendsNothing (Streams.xack conn key group [])
        × SendsNothing (Keys.mset conn [])
  unfolding Collections.zadd zadd_args Collections.srem Collections.smembers Collections.sismember
      Collections.scard Collections.spop Collections.zrem Collections.zscore Collections.zcard
      Collections.zrank Collections.zrange Collections.zrange_with_scores Collections.hset
      Collections.sadd Streams.xdel Streams.xack Keys.mset CmdKeys.srem CmdKeys.smembers
      CmdKeys.sismember CmdKeys.scard CmdKeys.spop CmdKeys.zrem CmdKeys.zscore CmdKeys.zcard
      CmdKeys.zrank CmdKeys.zrange CmdKeys.zrange_with_scores CmdKeys.hset CmdKeys.sadd
  collections_send_commands key group m ms start stop entry entries scores = (
    ask-Sends _ _,
    ask-Sends _ _,
    ask-Sends _ _,
    ask-Sends _ _,
    ask-Sends _ _,
    ask-Sends _ _,
    ask-Sends _ _,
    ask-Sends _ _,
    ask-Sends _ _,
    ask-Sends _ _,
    ask-Sends _ _,
    ask-Sends _ _,
    ask-Sends _ _,
    zadd-SendsMade key (start, m) scores,
    zincr_by-SendsMade key start m,
    ask-Sends _ _,
    ask-Sends _ _,
    λ log. refl,
    λ log. refl,
    λ log. refl,
    λ log. refl,
    λ log. refl,
    λ log. refl,
  )
