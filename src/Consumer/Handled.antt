-- ===== src/Consumer/Handled.antt =====
-- `consume` of a typed stream (packages/core/src/Redis.ts): a handler runs on each entry of a group,
-- and the entry is acknowledged behind it.
use redfx.Common.{String, List}
use redfx.Durations.{Durations}
use redfx.RedisError.{RedisError}
use redfx.Effect.{map_error}
use redfx.Run.{Effect, pure, lift, for_each_effect, ◌>>=◌, ◌>>◌}
use redfx.Redis.Service.{RedisService}
use redfx.Ref.{Codec}
use redfx.Ref.StreamOf.{decode_message}
use redfx.Consumer.Group.{GroupEntry}

-- `E | RedisError`
pub data ConsumeError (E : Type 0) : Type 0 where
  handler_error : E → ConsumeError E
  entry_error : RedisError → ConsumeError E

module _ {W E A : Type 0} {durations : Durations} (r : RedisService W durations) (codec : Codec A)
    (key : String) (handler : A → Effect W E (Unit {0})) where
  abbrev in_consume : {X : Type 0} → Effect W RedisError X → Effect W (ConsumeError E) X
  in_consume m w = let (result, w') = m w in (map_error entry_error result, w')

  abbrev run_handler : A → Effect W (ConsumeError E) (Unit {0})
  run_handler a w = let (result, w') = handler a w in (map_error handler_error result, w')

  unfoldable pub consume_entry : GroupEntry W → Effect W (ConsumeError E) A
  consume_entry e = in_consume (lift (decode_message r codec key e.fields)) >>= λ message.
      run_handler message >> in_consume e.ack >> pure message

  -- `Stream.mapEffect` over the entries of a round: the first failure ends the stream.
  unfoldable pub consume_entries : List (GroupEntry W) → Effect W (ConsumeError E) (List A)
  consume_entries es = for_each_effect consume_entry es
