-- ===== src/Consumer/StreamRef.antt =====
-- The handle of a typed stream and the function that makes it from an id (`RedisStreamRef` and
-- `Redis.stream` of packages/core/src/Redis.ts).
use redfx.Common.{ℕ, String, Bool, List, Option}
use redfx.Js.Number.{Number}
use redfx.Durations.{Durations}
use redfx.Resp.{RespValue}
use redfx.RedisError.{RedisError}
use redfx.Run.{Effect}
use redfx.RedisCommand.{RedisCommand, TrimArgs}
use redfx.Redis.Service.{RedisService}
use redfx.Ref.{Codec, key_of, delete}
use redfx.Ref.StreamOf as StreamOf
use redfx.Ref.StreamOf.{StreamEntry}
use redfx.Consumer.{Reading}
use redfx.Consumer.Handled.{ConsumeError}
use redfx.Consumer.Typed.{Emitted, StreamGroupEntry, typed_read, typed_group, typed_consume}

pub record StreamReadOptions (D : Type 0) : Type 0 where
  pub from : Option String
  pub count : Option Number
  pub block : Option D

pub record GroupReadOptions (D : Type 0) : Type 0 where
  pub group : String
  pub consumer : String
  pub from : Option String
  pub count : Option Number
  pub block : Option D

-- A stream of the effect library is what it emits over a number of rounds.
pub record RedisStreamRef (W : Type 0) (durations : Durations) (A : Type 0) : Type 1 where
  pub key : String
  pub add : A → Option Number → Bool → Effect W RedisError String
  pub range :
      Option String → Option String → Option Number → Effect W RedisError (List (StreamEntry A))
  pub rev_range :
      Option String → Option String → Option Number → Effect W RedisError (List (StreamEntry A))
  pub len : Effect W RedisError Number
  pub trim : TrimArgs → Effect W RedisError Number
  pub delete : List String → Effect W RedisError Number
  pub drop : Effect W RedisError Bool
  pub read :
      StreamReadOptions durations.DurationInput
      → ℕ
      → W
      → Emitted (Reading W) RedisError (StreamEntry A)
  pub group :
      GroupReadOptions durations.DurationInput → ℕ → W → Emitted W RedisError (StreamGroupEntry W A)
  pub consume :
      {E : Type 0}
      → GroupReadOptions durations.DurationInput
      → (A → Effect W E (Unit {0}))
      → ℕ
      → W
      → Emitted W (ConsumeError E) A

module _ {W A : Type 0} {durations : Durations} (r : RedisService W durations)
    (send : RedisCommand → Effect W RedisError RespValue) (codec : Codec A) (prefix : String) where
  unfoldable pub stream : String → RedisStreamRef W durations A
  stream id =
      let key = key_of prefix id in
      record {
        key = key;
        add = StreamOf.add r codec key;
        range = StreamOf.range r codec key;
        rev_range = StreamOf.rev_range r codec key;
        len = r.xlen key;
        trim = r.xtrim key;
        delete = StreamOf.delete r codec key;
        drop = delete r key;
        read = λ o. typed_read r send codec key o.count o.block o.from;
        group = λ o. typed_group r send codec key o.count o.block o.group o.consumer o.from;
        consume = λ {E} o handler.
            typed_consume r send codec key o.count o.block o.group o.consumer {E = E} handler
              o.from;
      }
