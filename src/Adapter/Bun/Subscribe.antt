-- ===== src/Adapter/Bun/Subscribe.antt =====
-- `subscribeStream` of packages/bun/src/index.ts.
use redfx.Common.{String, Bool, true, false, List, [], ◌∷◌, if◌then◌else◌}
use redfx.RedisError.{RedisError, connection_error}
use redfx.Run.{Effect, ◌>>=◌, as_void, for_each_effect}
use redfx.Adapter.Cause.{Cause, Promised, try_promise}
use redfx.Adapter.Emitter.{Emitter, single, emit_fail, set_up}
use redfx.Adapter.Bun.{map_error}

-- What happens to a subscribed client: its listener is called with a message and its channel, its
-- connection is closed, or the scope of the stream ends and its finalizer runs.
pub data Event : Type 0 where
  listener : String → String → Event
  onclose : Cause → Event
  finalizer : Event

-- The variable `active` beside the emitter.
pub record Subscriber : Type 0 where
  pub active : Bool
  pub emitter : Emitter

-- A drop is reported while the stream is active; the finalizer runs before its own close.
unfoldable pub on_event : Event → Subscriber → Subscriber
on_event (listener message channel) s = record {
  active = s.active;
  emitter = single (record { channel = channel; message = message }) s.emitter;
}
on_event (onclose cause) s =
    if s.active
    then record {
      active = s.active;
      emitter = emit_fail (connection_error "bun: subscriber connection closed") s.emitter;
    }
    else s
on_event finalizer s = record { active = false; emitter = s.emitter }

unfoldable pub on_events : List Event → Subscriber → Subscriber
on_events [] s = s
on_events (e ∷ es) s = on_events es (on_event e s)

module _ {W Client : Type 0} (make_client : Effect W RedisError Client)
    (client_subscribe : Client → String → Promised W (Unit {0})) (channels : List String) where
  -- One SUBSCRIBE for each channel.
  unfoldable pub subscribe_all : Client → Effect W RedisError (Unit {0})
  unfolding map_error
  subscribe_all sub = as_void (
      for_each_effect
        (λ channel. try_promise (map_error "SUBSCRIBE") (client_subscribe sub channel)) channels)

  -- What the stream has emitted behind these events, and the state after its set-up.
  unfoldable pub subscribe_stream : List Event → W → Emitter × W
  subscribe_stream events w =
      let (made, w') = (make_client >>= subscribe_all) w in
      ((on_events events (record { active = true; emitter = set_up made })).emitter, w')
