-- ===== src/Ref/HashOf.antt =====
-- `Redis.hashOf`: a hash whose values are encoded (Redis.ts).
use redfx.Common.{String, List, [], ◌∷◌, Option, none, some}
use redfx.Js.Number.{Number, of_ℕ}
use redfx.Durations.{Durations}
use redfx.RedisError.{RedisError}
use redfx.Effect.{Exit, map_exit, for_each}
use redfx.Run.{Effect, pure, lift, ◌>>=◌}
use redfx.Redis.Service.{RedisService}
use redfx.Ref.Options.{Codec, to_decode_error, RefOptions, WriteOptions, restamp_ttl}

module _ {W A : Type 0} {durations : Durations} (r : RedisService W durations) (codec : Codec A)
    (options : RefOptions durations.DurationInput) (key : String) where
  unfoldable pub set :
      String → A → WriteOptions durations.DurationInput → Effect W RedisError (Unit {0})
  set field value opts = do
    v ← lift (to_decode_error (codec.encode value))
    written ← r.hset key ((field, v) ∷ [])
    restamp_ttl r key options.ttl opts

  abbrev pub decode_value : Option String → Effect W RedisError (Option A)
  decode_value none = pure none
  decode_value (some v) = lift (map_exit some (to_decode_error (codec.decode v)))

  unfoldable pub get : String → Effect W RedisError (Option A)
  get field = r.hget key field >>= decode_value

  abbrev decode_field : String × String → Exit RedisError (String × A)
  decode_field (field, v) = map_exit (λ a. (field, a)) (to_decode_error (codec.decode v))

  -- The entries of the Map, whose keys are distinct as the record's are.
  unfoldable pub get_all : Effect W RedisError (List (String × A))
  get_all = r.hget_all key >>= λ record_of. lift (for_each decode_field record_of)

  unfoldable pub remove : List String → Effect W RedisError Number
  remove [] = pure (of_ℕ 0)
  remove (f ∷ fields) = r.hdel key (f ∷ fields)
