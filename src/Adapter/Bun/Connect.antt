-- ===== src/Adapter/Bun/Connect.antt =====
-- The clients and connections of packages/bun/src/index.ts, and its layers.
use redfx.Common.{ℕ, String, false, List, [], ◌∷◌, Option, some}
use redfx.Js.Object.Spread.{spread}
use redfx.Durations.{Durations}
use redfx.Resp.{RespValue}
use redfx.RedisError.{RedisError, connection_error}
use redfx.Effect.{succeed}
use redfx.Run.{Effect, pure, ◌>>=◌}
use redfx.Js.Object.{Obj}
use redfx.Connection.{ConnectionService}
use redfx.Connection.Pool.{Pool, pooled}
use redfx.Connection.Timeout.{Deadline}
use redfx.Redis.Service.{RedisService}
use redfx.Redis.Layer.{Spans, layer_connection}
use redfx.Adapter.Cause.{Promised, try_promise}
use redfx.Adapter.Options.{Setting, flag, ClientConfig, LayerError, unwrap_url}
use redfx.Adapter.Bun.{send, pipeline}

abbrev pub fail_fast : Obj Setting
fail_fast = ("autoReconnect", flag false) ∷ ("enableOfflineQueue", flag false) ∷ []

unfoldable pub fail_fast_config : {D : Type 0} → ClientConfig D → ClientConfig D
fail_fast_config config = record config { options = spread config.options fail_fast }

-- `new RedisClient(url, options)` with its `connect()`, and what a client does.
pub record Clients (W : Type 0) : Type 1 where
  pub Client : Type 0
  pub connect : Option String → Obj Setting → Promised W Client
  pub send : Client → String → List String → Promised W RespValue
  pub all : Client → List (String × List String) → Promised W (List RespValue)
  pub close : Client → W → W

module _ {W : Type 0} (durations : Durations) (clients : Clients W) where
  open durations use {DurationInput}
  open clients use {Client, connect}

  unfoldable pub make_client : ClientConfig DurationInput → Effect W RedisError Client
  make_client config =
      try_promise (λ cause. connection_error "bun: failed to connect")
        (connect config.url config.options)

  -- What both kinds of connection do with their client.
  unfoldable pub service : Client → ConnectionService W
  service client = record {
    send = send (clients.send client) (clients.all client);
    pipeline = pipeline (clients.send client) (clients.all client);
    close = λ w. (succeed tt, clients.close client w);
  }

  unfoldable pub make_connection :
      ClientConfig DurationInput → Effect W RedisError (ConnectionService W)
  unfolding make_client service
  make_connection config = make_client config >>= λ client. pure (service client)

  -- The connection that `dedicated` hands to its stream.
  unfoldable pub dedicated : ClientConfig DurationInput → Effect W RedisError (ConnectionService W)
  unfolding make_client service fail_fast_config
  dedicated config = make_client (fail_fast_config config) >>= λ client. pure (service client)

  module _ (with_span : Spans W) (deadline : DurationInput → Deadline W) where
    unfoldable pub layer :
        ClientConfig DurationInput → Effect W RedisError (RedisService W durations)
    layer config =
        layer_connection durations with_span deadline (make_connection config)
          config.command_timeout

    -- `{ ...config, url: resolved }`
    unfoldable pub layer_config :
        {C : Type 0}
        → Effect W C String
        → ClientConfig DurationInput
        → Effect W (LayerError C) (RedisService W durations)
    layer_config url config =
        unwrap_url url (λ resolved. layer (record config { url = some resolved }))

    -- `make_pool` is `Pool.make`.
    unfoldable pub layer_pooled :
        (Effect W RedisError (ConnectionService W) → ℕ → Pool W)
        → ClientConfig DurationInput
        → ℕ
        → Effect W RedisError (RedisService W durations)
    unfolding fail_fast_config
    layer_pooled make_pool config size =
        layer_connection durations with_span deadline
          (pure (pooled (make_pool (make_connection (fail_fast_config config)) size)))
          config.command_timeout
