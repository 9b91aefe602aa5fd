-- ===== src/Ref/Value.antt =====
-- `Redis.ref`: one value under one key (Redis.ts).
use redfx.Common.{String, Bool, true, false, Option, none, some, if◌then◌else◌}
use redfx.Js.Text.{◌<>◌}
use redfx.Durations.{Durations}
use redfx.RedisError.{RedisError, command_error}
use redfx.Effect.{map_exit}
use redfx.Run.{Effect, pure, raise, lift, ◌>>=◌}
use redfx.RedisCommand.{SetCommandOptions}
use redfx.Redis.Service.{RedisService}
use redfx.Ref.Options.{Codec, to_decode_error, RefOptions, WriteOptions, or_option}

module _ {W A : Type 0} {durations : Durations} (r : RedisService W durations) (codec : Codec A)
    (options : RefOptions durations.DurationInput) (key : String) where
  abbrev decode_some : Option String → Effect W RedisError (Option A)
  decode_some none = pure none
  decode_some (some s) = lift (map_exit some (to_decode_error (codec.decode s)))

  unfoldable pub get : Effect W RedisError (Option A)
  get = r.get key >>= decode_some

  unfoldable pub set_options :
      WriteOptions durations.DurationInput → SetCommandOptions durations.DurationInput
  set_options opts =
      if opts.keep_ttl
      then record { ex = none; px = none; keep_ttl = true }
      else record { ex = or_option opts.ttl options.ttl; px = none; keep_ttl = false }

  unfoldable pub set : A → WriteOptions durations.DurationInput → Effect W RedisError (Unit {0})
  unfolding set_options
  set value opts =
      lift (to_decode_error (codec.encode value)) >>= λ str. r.set key str (set_options opts)

  update_some : (A → A) → Bool → Option A → Effect W RedisError (Unit {0})
  update_some f keep_ttl none =
      raise (command_error ("ref.update: key \"" <> key <> "\" does not exist") (some "GET") none)
  update_some f keep_ttl (some current) =
      set (f current) (record { ttl = none; keep_ttl = keep_ttl })

  unfoldable pub update : (A → A) → Bool → Effect W RedisError (Unit {0})
  unfolding update_some
  update f keep_ttl = get >>= update_some f keep_ttl

  unfoldable pub get_delete : Effect W RedisError (Option A)
  get_delete = r.get_delete key >>= decode_some
