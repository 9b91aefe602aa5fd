-- ===== src/Ref/StreamOf.antt =====
-- `Redis.stream`: a log of encoded messages, each under the field "d" (Redis.ts).
use redfx.Common.{String, Bool, List, [], ◌∷◌, Option, none, some}
use redfx.Js.Number.{Number, of_ℕ}
use redfx.Js.Object.{Obj, lookup}
use redfx.Durations.{Durations}
use redfx.RedisError.{RedisError}
use redfx.Effect.{Exit, map_exit, for_each}
use redfx.Run.{Effect, pure, lift, ◌>>=◌}
use redfx.Decode.{RawStreamEntry}
use redfx.Redis.Service.{RedisService}
use redfx.Cmd.Streams.{or_else}
use redfx.Ref.Options.{Codec, to_decode_error}

pub record StreamEntry (A : Type 0) : Type 0 where
  pub id : String
  pub message : A

module _ {W A : Type 0} {durations : Durations} (r : RedisService W durations) (codec : Codec A)
    (key : String) where
  -- A missing "d" decodes the empty text.
  unfoldable pub decode_message : Obj String → Exit RedisError A
  decode_message fields = to_decode_error (codec.decode (or_else (lookup "d" fields) ""))

  unfoldable pub decode_typed : RawStreamEntry → Exit RedisError (StreamEntry A)
  unfolding decode_message
  decode_typed e =
      map_exit (λ message. record { id = e.id; message = message }) (decode_message e.fields)

  unfoldable pub add : A → Option Number → Bool → Effect W RedisError String
  add message max_len approx = do
    d ← lift (to_decode_error (codec.encode message))
    r.xadd key (("d", d) ∷ []) (record { id = none; max_len = max_len; approx = approx })

  unfoldable pub range :
      Option String → Option String → Option Number → Effect W RedisError (List (StreamEntry A))
  range start end count =
      r.xrange key (some (or_else start "-")) (some (or_else end "+")) count >>= λ es.
      lift (for_each decode_typed es)

  unfoldable pub rev_range :
      Option String → Option String → Option Number → Effect W RedisError (List (StreamEntry A))
  rev_range start end count =
      r.xrevrange key (some (or_else start "-")) (some (or_else end "+")) count >>= λ es.
      lift (for_each decode_typed es)

  unfoldable pub delete : List String → Effect W RedisError Number
  delete [] = pure (of_ℕ 0)
  delete (id ∷ ids) = r.xdel key (id ∷ ids)
