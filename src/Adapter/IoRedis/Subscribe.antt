-- ===== src/Adapter/IoRedis/Subscribe.antt =====
-- `subscribeStream` of packages/ioredis/src/index.ts.
use redfx.Common.{String, List, [], ◌∷◌}
use redfx.RedisError.{RedisError, connection_error}
use redfx.Run.{Effect, ◌>>=◌}
use redfx.Adapter.Cause.{Cause, Promised, try_promise}
use redfx.Adapter.Emitter.{Emitter, single, emit_fail, set_up}
use redfx.Adapter.IoRedis.{map_error}

-- The events of a subscribed client: a message with its channel first, an error, or that its connection
-- is closed (`close`, `end`), for which there is no listener.
pub data Event : Type 0 where
  message : String → String → Event
  error : Cause → Event
  closes : Event

unfoldable pub on_event : Event → Emitter → Emitter
on_event (message channel text) s = single (record { channel = channel; message = text }) s
on_event (error cause) s = emit_fail (connection_error "ioredis: subscriber error") s
on_event closes s = s

unfoldable pub on_events : List Event → Emitter → Emitter
on_events [] s = s
on_events (e ∷ es) s = on_events es (on_event e s)

module _ {W Client : Type 0} (acquire : Effect W RedisError Client)
    (client_subscribe : Client → List String → Promised W (Unit {0})) (channels : List String) where
  -- One SUBSCRIBE for all channels.
  unfoldable pub subscribe_all : Client → Effect W RedisError (Unit {0})
  unfolding map_error
  subscribe_all sub = try_promise (map_error "SUBSCRIBE") (client_subscribe sub channels)

  -- What the stream has emitted behind these events, and the state after its set-up.
  unfoldable pub subscribe_stream : List Event → W → Emitter × W
  subscribe_stream events w =
      let (made, w') = (acquire >>= subscribe_all) w in (on_events events (set_up made), w')
