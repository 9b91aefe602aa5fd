-- ===== src/Adapter/IoRedis/Connect.antt =====
-- The clients and connections of packages/ioredis/src/index.ts, and its layers.
use redfx.Common.{
  ℕ, ◌*◌, String, true, false, List, [], ◌∷◌, Option, none, some, ltb, leb, ◌==◌, if◌then◌else◌,
}
use redfx.Js.Object.{Obj}
use redfx.Js.Object.Spread.{spread}
use redfx.Durations.{Durations}
use redfx.Resp.{RespValue}
use redfx.RedisError.{RedisError, connection_error}
use redfx.Effect.{Exit, succeed, fail, die}
use redfx.Run.{Effect, pure, ◌>>=◌}
use redfx.RedisCommand.{Arg}
use redfx.Connection.{ConnectionService}
use redfx.Connection.Pool.{Pool, pooled}
use redfx.Connection.Timeout.{Deadline}
use redfx.Redis.Service.{RedisService}
use redfx.Redis.Layer.{Spans, layer_connection}
use redfx.Adapter.Cause.{Cause, Promised, try_promise}
use redfx.Adapter.Options.{
  Setting, flag, amount, strategy, amounts, ClientConfig, LayerError, unwrap_url,
}
use redfx.Adapter.IoRedis.{Results, send, pipeline}

-- The delay before the reconnect after so many attempts, none to give up.
unfoldable pub retry_strategy : ℕ → Option ℕ
retry_strategy times =
    if ltb 5 times then none else some (if leb (times * 100) 2000 then times * 100 else 2000)

abbrev pub defaults : Obj Setting
defaults =
    ("lazyConnect", flag true)
    ∷ ("maxRetriesPerRequest", amount 3)
    ∷ ("retryStrategy", strategy retry_strategy)
    ∷ ("keepAlive", amount 30000)
    ∷ []

abbrev pub dedicated_overrides : Obj Setting
dedicated_overrides =
    ("retryStrategy", strategy (λ times. none))
    ∷ ("autoResendUnfulfilledCommands", flag false)
    ∷ ("enableOfflineQueue", flag false)
    ∷ ("maxRetriesPerRequest", amount 0)
    ∷ []

abbrev pub cluster_defaults : Obj Setting
cluster_defaults =
    ("lazyConnect", flag true)
    ∷ ("redisOptions", amounts (("maxRetriesPerRequest", 3) ∷ ("keepAlive", 30000) ∷ []))
    ∷ []

-- `config.url ? … : …` takes an empty URL for none.
unfoldable pub truthy : Option String → Option String
truthy none = none
truthy (some url) = if url == "" then none else some url

-- `new IORedisClient(url, options)` or `new Cluster(nodes, options)` with its `connect()`, and what a
-- client does.
pub record Clients (W : Type 0) : Type 1 where
  pub Client : Type 0
  pub connect : Option String → Obj Setting → Promised W Client
  pub connect_cluster : List String → Obj Setting → Promised W Client
  pub send_command : Client → String → List Arg → Promised W RespValue
  pub exec : Client → List (String × List Arg) → Promised W Results
  pub quit : Client → Promised W (Unit {0})
  pub disconnect : Client → W → W

pub record ClusterConfig (D : Type 0) : Type 0 where
  pub nodes : List String
  pub options : Obj Setting
  pub command_timeout : Option D

unfoldable pub dedicated_config : {D : Type 0} → ClientConfig D → ClientConfig D
dedicated_config config = record config { options = spread config.options dedicated_overrides }

module _ {W : Type 0} (durations : Durations) (clients : Clients W) where
  open durations use {DurationInput}
  open clients use {Client, connect, connect_cluster, quit, disconnect}

  closed : Client → Exit Cause (Unit {0}) → W → Exit RedisError (Unit {0}) × W
  closed client (succeed u) w = (succeed tt, w)
  closed client (fail cause) w = (succeed tt, disconnect client w)
  closed client (die d) w = (die d, w)

  -- A QUIT that is refused is followed by a disconnect; neither is reported.
  unfoldable pub close_quietly : Client → Effect W RedisError (Unit {0})
  unfolding closed
  close_quietly client w = let (done, w') = quit client w in closed client done w'

  unfoldable pub make_client : ClientConfig DurationInput → Effect W RedisError Client
  unfolding truthy
  make_client config =
      try_promise (λ cause. connection_error "ioredis: failed to connect")
        (connect (truthy config.url) (spread defaults config.options))

  unfoldable pub make_dedicated_client : ClientConfig DurationInput → Effect W RedisError Client
  unfolding make_client dedicated_config
  make_dedicated_client config = make_client (dedicated_config config)

  unfoldable pub make_cluster_client : ClusterConfig DurationInput → Effect W RedisError Client
  make_cluster_client config =
      try_promise (λ cause. connection_error "ioredis cluster: failed to connect")
        (connect_cluster config.nodes (spread cluster_defaults config.options))

  -- What a connection does with its client.
  unfoldable pub service : Client → ConnectionService W
  unfolding close_quietly
  service client = record {
    send = send (clients.send_command client) (clients.exec client);
    pipeline = pipeline (clients.send_command client) (clients.exec client);
    close = close_quietly client;
  }

  unfoldable pub make_connection :
      Effect W RedisError Client → Effect W RedisError (ConnectionService W)
  unfolding service
  make_connection acquire = acquire >>= λ client. pure (service client)

  -- The connection that `dedicated` hands to its stream, over a client from `make_dedicated_client`, or
  -- with a cluster over one like any other.
  unfoldable pub dedicated : Effect W RedisError Client → Effect W RedisError (ConnectionService W)
  unfolding service
  dedicated acquire = acquire >>= λ client. pure (service client)

  module _ (with_span : Spans W) (deadline : DurationInput → Deadline W) where
    unfoldable pub layer :
        ClientConfig DurationInput → Effect W RedisError (RedisService W durations)
    layer config =
        layer_connection durations with_span deadline (make_connection (make_client config))
          config.command_timeout

    -- `{ ...config, url: resolved }`
    unfoldable pub layer_config :
        {C : Type 0}
        → Effect W C String
        → ClientConfig DurationInput
        → Effect W (LayerError C) (RedisService W durations)
    layer_config url config =
        unwrap_url url (λ resolved. layer (record config { url = some resolved }))

    -- `make_pool` is `Pool.make`.
    unfoldable pub layer_pooled :
        (Effect W RedisError (ConnectionService W) → ℕ → Pool W)
        → ClientConfig DurationInput
        → ℕ
        → Effect W RedisError (RedisService W durations)
    layer_pooled make_pool config size =
        layer_connection durations with_span deadline
          (pure (pooled (make_pool (make_connection (make_client config)) size)))
          config.command_timeout

    unfoldable pub layer_cluster :
        ClusterConfig DurationInput → Effect W RedisError (RedisService W durations)
    layer_cluster config =
        layer_connection durations with_span deadline (make_connection (make_cluster_client config))
          config.command_timeout
