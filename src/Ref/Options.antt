-- ===== src/Ref/Options.antt =====
-- What the key families share: schemas, options and the TTL of a write (Redis.ts).
pub mod Restamp
use redfx.Common.{String, Bool, [], ◌∷◌, Option, none, some, if◌then◌else◌}
use redfx.Js.Text.{◌<>◌}
use redfx.Js.Number.{Number, less, of_ℕ}
use redfx.Durations.{Durations}
use redfx.RedisError.{RedisError, decode_error}
use redfx.Effect.{Exit, map_error}
use redfx.Run.{Effect, pure, as_void, ◌>>=◌}
use redfx.Redis.Service.{RedisService}

-- `Schema.parseJson(schema)` of the effect library: a ParseError is its message.
pub record Codec (A : Type 0) : Type 0 where
  pub encode : A → Exit String String
  pub decode : String → Exit String A

abbrev parse_failure : String → RedisError
parse_failure message = decode_error (record { message = message; value = none })

-- `.pipe(toDecodeError)`
unfoldable pub to_decode_error : {A : Type 0} → Exit String A → Exit RedisError A
to_decode_error r = map_error parse_failure r

-- A configured TTL, none if the family has none.
pub record RefOptions (D : Type 0) : Type 0 where
  pub prefix : String
  pub ttl : Option D

pub record WriteOptions (D : Type 0) : Type 0 where
  pub ttl : Option D
  pub keep_ttl : Bool

-- `x ?? y` where y may be undefined too
abbrev pub or_option {ℓ} : {A : Type ℓ} → Option A → Option A → Option A
or_option none y = y
or_option (some x) y = some x

abbrev pub key_of : String → String → String
key_of prefix id = prefix <> ":" <> id

-- `Effect.map((n) => n > 0)`
abbrev pub is_positive : Number → Bool
is_positive n = less (of_ℕ 0) n

module _ {W : Type 0} {durations : Durations} (r : RedisService W durations) where
  expire_some : String → Option durations.DurationInput → Effect W RedisError (Unit {0})
  expire_some key none = pure tt
  expire_some key (some ttl) = as_void (r.expire key ttl)

  unfoldable pub restamp_ttl :
      String
      → Option durations.DurationInput
      → WriteOptions durations.DurationInput
      → Effect W RedisError (Unit {0})
  unfolding expire_some
  restamp_ttl key configured opts =
      if opts.keep_ttl then pure tt else expire_some key (or_option opts.ttl configured)

  -- `Effect.flatMap(Redis, (r) => r.del(key)).pipe(Effect.map((n) => n > 0))`
  unfoldable pub delete : String → Effect W RedisError Bool
  delete key = r.del (key ∷ []) >>= λ n. pure (is_positive n)
