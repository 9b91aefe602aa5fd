-- ===== src/Cache/Core.antt =====
-- `makeCore`: what the handles of both caches run.
use redfx.Common.{
  ℕ, zero, suc, String, Bool, true, false, [], ◌∷◌, Option, none, some, if◌then◌else◌, ◌==◌,
}
use redfx.Js.Text.{◌<>◌}
use redfx.Js.Number.{Number, less, of_ℕ}
use redfx.Durations.{Durations}
use redfx.Resp.{RespValue, str, null}
use redfx.RedisError.{RedisError, decode_error, timeout_error}
use redfx.Effect.{Exit, succeed, fail, die, map_error}
use redfx.Run.{Effect, pure, raise, map_effect, ◌>>=◌, ◌>>◌}
use redfx.RedisCommand.{text}
use redfx.Redis.Service.{RedisService}
use redfx.Ref.{RefOptions, key_of, delete}
use redfx.Ref.Value
use redfx.Script.{Cached, in_outside, script}
use redfx.Cache.ReleaseScript.{release_lua}
use redfx.Cache.Options.{
  CacheError, lookup_error, redis_error, CacheOptions, Runtime, ResolvedStampede, OnTimeout,
  compute, give_up, resolve_stampede, millis_string, later,
}

module _ {W E A : Type 0} {durations : Durations} (r : RedisService W durations)
    (runtime : Runtime W) (options : CacheOptions W durations.DurationInput E A) where
  open durations use {DurationInput, to_millis}

  -- The state of the core is the outside, and the SHA that its release script has cached.
  abbrev pub Cache : Type 0 → Type 0
  Cache X = Effect (Cached W) (CacheError E) X

  abbrev pub of_redis : {X : Type 0} → Effect W RedisError X → Cache X
  of_redis m = in_outside (λ w. let (r, w') = m w in (map_error redis_error r, w'))

  abbrev pub of_lookup : {X : Type 0} → Effect W E X → Cache X
  of_lookup m = in_outside (λ w. let (r, w') = m w in (map_error lookup_error r, w'))

  abbrev pub ref_options : RefOptions DurationInput
  ref_options = record { prefix = options.prefix; ttl = some options.ttl }

  abbrev pub ref_get : String → Cache (Option A)
  ref_get key = of_redis (Value.get r options.schema ref_options (key_of options.prefix key))

  unfoldable pub store : String → A → Cache A
  store key value =
      of_redis (
        Value.set r options.schema ref_options (key_of options.prefix key) value
          (record { ttl = some options.ttl; keep_ttl = false }))
      >> pure value

  unfoldable pub lookup_and_store : String → Cache A
  lookup_and_store key = of_lookup (options.lookup key) >>= store key

  unfoldable pub or_lookup : String → Option A → Cache A
  or_lookup key none = lookup_and_store key
  or_lookup key (some a) = pure a

  unfoldable pub cache_aside : String → Cache A
  unfolding or_lookup
  cache_aside key = ref_get key >>= or_lookup key

  abbrev unexpected : RespValue → Cache Bool
  unexpected reply = raise (
      redis_error
        (decode_error (record { message = "unexpected SET NX reply"; value = some reply })))

  unfoldable pub lock_reply : RespValue → Cache Bool
  lock_reply (str s) = if s == "OK" then pure true else unexpected (str s)
  lock_reply null = pure false
  lock_reply reply = unexpected reply

  unfoldable pub acquire_lock : String → String → String → Cache Bool
  unfolding lock_reply
  acquire_lock lock_key token lock_ms =
      of_redis
        (r.call "SET" (text lock_key ∷ text token ∷ text "PX" ∷ text lock_ms ∷ text "NX" ∷ []))
      >>= lock_reply

  -- `Effect.ignore`: a failure is no failure here; a defect stays one.
  unfoldable pub ignore : {X : Type 0} → Exit RedisError X → Exit (CacheError E) (Unit {0})
  ignore (succeed x) = succeed tt
  ignore (fail e) = succeed tt
  ignore (die d) = die d

  unfoldable pub release_lock : String → String → Cache (Unit {0})
  unfolding ignore
  release_lock lock_key token s =
      let (result, s') =
        script r.call release_lua runtime.number_result (lock_key ∷ []) (token ∷ []) s in
      (ignore result, s')

  -- `Effect.acquireUseRelease`: the release runs after any outcome of the use; a defect in it is the
  -- outcome of the whole where the use succeeded or failed.
  unfoldable pub released :
      {X : Type 0} → Exit (CacheError E) X → Exit (CacheError E) (Unit {0}) → Exit (CacheError E) X
  released result (die d) = die d
  released result _ = result

  abbrev pub acquire_use_release :
      {X Y : Type 0} → Cache X → (X → Cache Y) → (X → Cache (Unit {0})) → Cache Y
  unfolding released
  acquire_use_release acquire use_it release = acquire >>= λ x s.
      let (result, s') = use_it x s in
      let (ended, s'') = release x s' in (released result ended, s'')

  unfoldable pub use_lock : String → Bool → Cache (Option A)
  use_lock key true = map_effect some (lookup_and_store key)
  use_lock key false = pure none

  unfoldable pub drop_lock : String → String → Bool → Cache (Unit {0})
  drop_lock lock_key token true = release_lock lock_key token
  drop_lock lock_key token false = pure tt

  unfoldable pub under_lock : String → String → String → String → Option A → Cache (Option A)
  unfolding use_lock drop_lock released
  under_lock key lock_key lock_ms token (some a) = pure (some a)
  under_lock key lock_key lock_ms token none =
      acquire_use_release (acquire_lock lock_key token lock_ms) (use_lock key)
        (drop_lock lock_key token)

  abbrev pub lock_key_of : String → String
  lock_key_of key = options.prefix <> ":lock:" <> key

  unfoldable pub try_round : String → ResolvedStampede DurationInput → String → Cache (Option A)
  unfolding under_lock
  try_round key s token =
      ref_get key >>= under_lock key (lock_key_of key) (millis_string durations s.lock_ttl) token

  unfoldable pub timed_out : String → OnTimeout → Cache A
  timed_out key compute = lookup_and_store key
  timed_out key give_up = raise (
      redis_error (
        timeout_error ("cache stampede wait timed out for \"" <> key <> "\"") (some "GET")
          (some key)))

  -- The loop over so many rounds at most, `none` if these were not enough.
  abbrev pub Waited : Type 0
  Waited = Option (Exit (CacheError E) A × Cached W)

  abbrev pub now : Cached W → ℕ
  now s = runtime.current_time_millis s.outside

  abbrev pub sleep : ResolvedStampede DurationInput → Cached W → Cached W
  sleep st s = record s { outside = runtime.jitter_sleep (to_millis st.poll_interval) s.outside }

  unfoldable pub settle :
      String
      → ResolvedStampede DurationInput
      → Number
      → Exit (CacheError E) (Option A)
      → Cached W
      → Waited
      → Waited
  settle key st deadline (succeed (some a)) s rest = some (succeed a, s)
  settle key st deadline (succeed none) s rest =
      if less (of_ℕ (now s)) deadline then rest else some (timed_out key st.on_timeout s)
  settle key st deadline (fail e) s rest = some (fail e, s)
  settle key st deadline (die d) s rest = some (die d, s)

  unfoldable pub loop :
      ℕ → String → ResolvedStampede DurationInput → String → Number → Cached W → Waited
  unfolding settle timed_out
  loop zero key st token deadline s = none
  loop (suc rounds) key st token deadline s =
      let (result, s') = try_round key st token s in
      let rest = loop rounds key st token deadline (sleep st s') in
      settle key st deadline result s' rest

  unfoldable pub stampede_get : ℕ → String → ResolvedStampede DurationInput → Cached W → Waited
  stampede_get rounds key st s =
      let (token, w) = runtime.random_uuid s.outside in
      let deadline = later (runtime.current_time_millis w) (to_millis st.wait_timeout) in
      loop rounds key st token deadline (record s { outside = w })

  unfoldable pub l2_with : ℕ → String → Option (ResolvedStampede DurationInput) → Cached W → Waited
  l2_with rounds key none s = some (cache_aside key s)
  l2_with rounds key (some st) s = stampede_get rounds key st s

  unfoldable pub l2_get : ℕ → String → Cached W → Waited
  unfolding l2_with
  l2_get rounds key s = l2_with rounds key (resolve_stampede durations options.stampede) s

  unfoldable pub del : String → Cache Bool
  del key = of_redis (delete r (key_of options.prefix key))
