-- ===== src/Cache/Options.antt =====
-- The options of a cache, and their defaults (`resolveStampede`, `millisString`).
use redfx.Common.{ℕ, ◌+◌, ◌*◌, ◌^◌, String, Option, none, some}
use redfx.Js.Number.{pos, negsuc, Number, decimal, of_ℕ, ceil, max_of, number_text}
use redfx.Durations.{Durations}
use redfx.Resp.{RespValue}
use redfx.RedisError.{RedisError}
use redfx.Effect.{Exit}
use redfx.Run.{Effect}
use redfx.Ref.{Codec}
use redfx.Cmd.Streams.{or_else}

pub data OnTimeout : Type 0 where
  compute give_up : OnTimeout

pub record StampedeOptions (D : Type 0) : Type 0 where
  pub lock_ttl : Option D
  pub wait_timeout : Option D
  pub poll_interval : Option D
  pub on_timeout : Option OnTimeout

-- `boolean | StampedeOptions | undefined`
pub data Stampede (D : Type 0) : Type 0 where
  off : Stampede D
  defaults : Stampede D
  options : StampedeOptions D → Stampede D

pub record ResolvedStampede (D : Type 0) : Type 0 where
  pub lock_ttl : D
  pub wait_timeout : D
  pub poll_interval : D
  pub on_timeout : OnTimeout

-- The errors of a cache: `E | RedisError`.
pub data CacheError (E : Type 0) : Type 0 where
  lookup_error : E → CacheError E
  redis_error : RedisError → CacheError E

-- `R | Redis` is the outside W.
pub record CacheOptions (W D E A : Type 0) : Type 0 where
  pub schema : Codec A
  pub prefix : String
  pub ttl : D
  pub lookup : String → Effect W E A
  pub stampede : Stampede D

-- What the cache takes of the runtime: `crypto.randomUUID`, `Clock.currentTimeMillis`, a sleep of so
-- many milliseconds times a random factor, and how `Schema.Number` decodes a script's reply.
pub record Runtime (W : Type 0) : Type 0 where
  pub random_uuid : W → String × W
  pub current_time_millis : W → ℕ
  pub jitter_sleep : Number → W → W
  pub number_result : RespValue → Exit RedisError Number

module _ (durations : Durations) where
  open durations use {DurationInput, to_millis, seconds, millis, of_duration}

  resolve_options : StampedeOptions DurationInput → ResolvedStampede DurationInput
  resolve_options opts =
      let lock_ttl = or_else opts.lock_ttl (of_duration (seconds (of_ℕ 10))) in
      record {
        lock_ttl = lock_ttl;
        wait_timeout = or_else opts.wait_timeout lock_ttl;
        poll_interval = or_else opts.poll_interval (of_duration (millis (of_ℕ 75)));
        on_timeout = or_else opts.on_timeout compute;
      }

  unfoldable pub resolve_stampede : Stampede DurationInput → Option (ResolvedStampede DurationInput)
  unfolding resolve_options
  resolve_stampede off = none
  resolve_stampede defaults = some (
      resolve_options
        (record { lock_ttl = none; wait_timeout = none; poll_interval = none; on_timeout = none }))
  resolve_stampede (options opts) = some (resolve_options opts)

  unfoldable pub millis_string : DurationInput → String
  millis_string d = number_text (max_of 1 (ceil (to_millis d)))

-- `n + x` for a natural number n and a duration x in milliseconds, which is not negative
unfoldable pub later : ℕ → Number → Number
later n (decimal (pos m) s) = decimal (pos (n * 10 ^ s + m)) s
later n (decimal (negsuc m) s) = of_ℕ n
later n x = x
