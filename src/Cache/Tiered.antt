-- ===== src/Cache/Tiered.antt =====
-- `RedisCache.makeTiered`: a cache in the process (L1) over the one on the server (L2). The L1 is the
-- effect library's `Cache`, a parameter; the listener's subscription and its retries are not
-- modelled, what it does with the messages is.
pub mod Reads
pub mod Instances
pub mod Coherence
pub mod Overtaken
pub mod Modelled
use redfx.Common.{ℕ, List, [], ◌∷◌, Option, String, ◌≡◌, ◌≢◌, refl, Bool, if◌then◌else◌, ◌==◌}
use redfx.Js.Text.{◌<>◌}
use redfx.Js.Json.{stringify}
use redfx.Durations.{Durations}
use redfx.Effect.{Exit, Exit-cases, succeeded, failed, died, succeed, fail, die}
use redfx.Run.{pure, ◌>>=◌, ◌>>◌}
use redfx.Redis.Service.{RedisService}
use redfx.Script.{Cached}
use redfx.Cache.Options.{CacheError, CacheOptions, Runtime}
use redfx.Cache.Core.{Cache, Waited, l2_get, ignore, store, del, lookup_and_store}

-- `Cache.make` with the lookup of the L2. It stands in the state of the outside.
pub record Memory (W E A : Type 0) : Type 0 where
  -- by a lookup, which may be still waiting behind the rounds it was given
  pub get :
      (String → Cached W → Option (Exit (CacheError E) A × Cached W))
      → String
      → Cached W
      → Option (Exit (CacheError E) A × Cached W)
  pub set : String → A → W → W
  pub invalidate : String → W → W

-- `JSON.stringify({ i, k })`
abbrev pub inv_msg : String → String → String
inv_msg i k = "{\"i\":" <> stringify i <> ",\"k\":" <> stringify k <> "}"

module _ {W E A : Type 0} {durations : Durations} (r : RedisService W durations)
    (runtime : Runtime W) (options : CacheOptions W durations.DurationInput E A) (l1 : Memory W E A)
    (instance_id : String) where
  abbrev pub channel : String
  channel = "redfx:cache:inv:" <> options.prefix

  abbrev pub remember : String → A → Cached W → Cached W
  remember key value s = record s { outside = l1.set key value s.outside }

  abbrev pub forget : String → Cached W → Cached W
  forget key s = record s { outside = l1.invalidate key s.outside }

  -- `l1.get(key)`, with `l2Get` as the L1's lookup.
  unfoldable pub get : ℕ → String → Cached W → Waited r runtime options
  get rounds = l1.get (l2_get r runtime options rounds)

  -- The failure of a publish is logged and ignored.
  unfoldable pub publish_inv : String → Cache r runtime options (Unit {0})
  publish_inv key s =
      let (result, w) = r.publish channel (inv_msg instance_id key) s.outside in
      (ignore r runtime options result, record s { outside = w })

  unfoldable pub set : String → A → Cache r runtime options (Unit {0})
  set key value =
      store r runtime options key value >>= λ _ s. publish_inv key (remember key value s)

  unfoldable pub invalidate : String → Cache r runtime options (Unit {0})
  invalidate key = del r runtime options key >>= λ _ s. publish_inv key (forget key s)

  unfoldable pub refresh : String → Cache r runtime options A
  refresh key = lookup_and_store r runtime options key >>= λ value s.
      (publish_inv key >> pure value) (remember key value s)

  -- The listener: a message of another instance drops the key here; its own are skipped.
  unfoldable pub on_message : String → String → W → W
  on_message i k w = if i == instance_id then w else l1.invalidate k w

  -- `Stream.runForEach` over the messages of the subscription.
  unfoldable pub listen : List (String × String) → W → W
  unfolding on_message
  listen [] w = w
  listen ((i, k) ∷ messages) w = listen messages (on_message i k w)

  abbrev pub announced : String → Cached W → Cached W
  announced key s = record s { outside = (r.publish channel (inv_msg instance_id key) s.outside).1 }

  module _
      (sound : (key d : String) (w : W)
        → (r.publish channel (inv_msg instance_id key) w).0 ≢ die d) where
    pub publish_inv_lem :
        (key : String) (s : Cached W) → publish_inv key s ≡ (succeed tt, announced key s)
    unfolding publish_inv ignore
    publish_inv_lem key s =
        elim (Exit-cases (r.publish channel (inv_msg instance_id key) s.outside).0) [
          | succeeded n said ↦ rw said refl
          | failed e said ↦ rw said refl
          | died d said ↦ absurd (sound key d s.outside said)
        ]

-- The handle, and what `makeTiered` fills it with.
pub record TieredCacheHandle {W E A : Type 0} {durations : Durations} (r : RedisService W durations)
    (runtime : Runtime W) (options : CacheOptions W durations.DurationInput E A) : Type 0 where
  pub get : ℕ → String → Cached W → Waited r runtime options
  pub set : String → A → Cache r runtime options (Unit {0})
  pub invalidate : String → Cache r runtime options (Unit {0})
  pub refresh : String → Cache r runtime options A

unfoldable pub make_tiered :
    {W E A : Type 0} {durations : Durations} (r : RedisService W durations) (runtime : Runtime W)
    (options : CacheOptions W durations.DurationInput E A) (l1 : Memory W E A)
    (instance_id : String)
    → TieredCacheHandle r runtime options
make_tiered r runtime options l1 instance_id = record {
  get = get r runtime options l1 instance_id;
  set = set r runtime options l1 instance_id;
  invalidate = invalidate r runtime options l1 instance_id;
  refresh = refresh r runtime options l1 instance_id;
}
