-- ===== src/Ref/SetOf.antt =====
-- `Redis.setOf`: a set whose members are encoded values (Redis.ts).
use redfx.Common.{String, Bool, List, [], ◌∷◌}
use redfx.Js.Number.{Number, of_ℕ}
use redfx.Durations.{Durations}
use redfx.RedisError.{RedisError}
use redfx.Effect.{Exit, for_each}
use redfx.Run.{Effect, pure, lift, ◌>>=◌, ◌>>◌}
use redfx.Redis.Service.{RedisService}
use redfx.Ref.Options.{Codec, to_decode_error, RefOptions, WriteOptions, restamp_ttl}

module _ {W A : Type 0} {durations : Durations} (r : RedisService W durations) (codec : Codec A)
    (options : RefOptions durations.DurationInput) (key : String) where
  unfoldable pub encode_all : List A → Exit RedisError (List String)
  encode_all values = for_each (λ v. to_decode_error (codec.encode v)) values

  unfoldable pub add_with :
      List A → WriteOptions durations.DurationInput → Effect W RedisError Number
  add_with [] opts = pure (of_ℕ 0)
  add_with (v ∷ values) opts = do
    encoded ← lift (encode_all (v ∷ values))
    added ← r.sadd key encoded
    restamp_ttl r key options.ttl opts
    pure added

  unfoldable pub remove : List A → Effect W RedisError Number
  remove [] = pure (of_ℕ 0)
  remove (v ∷ values) = lift (encode_all (v ∷ values)) >>= r.srem key

  unfoldable pub members : Effect W RedisError (List A)
  members = r.smembers key >>= λ ms. lift (for_each (λ m. to_decode_error (codec.decode m)) ms)

  unfoldable pub has : A → Effect W RedisError Bool
  has value = lift (to_decode_error (codec.encode value)) >>= r.sismember key
