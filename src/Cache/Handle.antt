-- ===== src/Cache/Handle.antt =====
-- `RedisCache.make`: the handle of a cache.
use redfx.Common.{ℕ, String}
use redfx.Durations.{Durations}
use redfx.Run.{as_void}
use redfx.Redis.Service.{RedisService}
use redfx.Script.{Cached}
use redfx.Cache.Options.{CacheOptions, Runtime}
use redfx.Cache.Core.{Cache, Waited, l2_get, store, del, lookup_and_store}

pub record RedisCacheHandle {W E A : Type 0} {durations : Durations} (r : RedisService W durations)
    (runtime : Runtime W) (options : CacheOptions W durations.DurationInput E A) : Type 0 where
  -- with a bound on the rounds of a wait
  pub get : ℕ → String → Cached W → Waited r runtime options
  pub set : String → A → Cache r runtime options (Unit {0})
  pub invalidate : String → Cache r runtime options (Unit {0})
  pub refresh : String → Cache r runtime options A

unfoldable pub make :
    {W E A : Type 0} {durations : Durations} (r : RedisService W durations) (runtime : Runtime W)
    (options : CacheOptions W durations.DurationInput E A)
    → RedisCacheHandle r runtime options
make r runtime options = record {
  get = l2_get r runtime options;
  set = λ key value. as_void (store r runtime options key value);
  invalidate = λ key. as_void (del r runtime options key);
  refresh = lookup_and_store r runtime options;
}
