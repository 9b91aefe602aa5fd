-- ===== src/Adapter/FailFast.antt =====
-- The settings of the clients that must not reconnect by themselves (packages/bun/src/index.ts and
-- packages/ioredis/src/index.ts): the consumers' streams and the pool own the reconnection.
use redfx.Common.{String, ◌≢◌}
use redfx.Js.Object.{Obj}
use redfx.Js.Object.Order.{IsObject}
use redfx.Js.Object.Spread.{spread}
use redfx.Durations.{Durations}
use redfx.Adapter.Options.{Setting, ClientConfig}
use redfx.Adapter.Bun.Connect as Bun
use redfx.Adapter.IoRedis.Connect as IoRedis

-- An option that is none of the two that are set for a fail-fast client of Bun.
abbrev pub FreeInBun : String → Type 0
FreeInBun k = (k ≢ "autoReconnect") × (k ≢ "enableOfflineQueue")

abbrev pub FreeInIoRedis : String → Type 0
FreeInIoRedis k =
    (k ≢ "retryStrategy")
    × (k ≢ "autoResendUnfulfilledCommands")
    × (k ≢ "enableOfflineQueue")
    × (k ≢ "maxRetriesPerRequest")

module _ {W : Type 0} (durations : Durations) (bun : Bun.Clients W) (ioredis : IoRedis.Clients W)
    (config : ClientConfig durations.DurationInput) (ok : IsObject config.options) where
  bun_options : Obj Setting
  bun_options = spread config.options Bun.fail_fast

  ioredis_options : Obj Setting
  ioredis_options = spread IoRedis.defaults (spread config.options IoRedis.dedicated_overrides)
