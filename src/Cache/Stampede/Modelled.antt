-- ===== src/Cache/Stampede/Modelled.antt =====
-- When the server of the step relation of Cache.Stampede models the one of a state of the program, and
-- what a store and a release make of it.
use redfx.Common.{
  ◌≢◌, ◌≡◌, inl, inr, refl, sym, ap, ◌∙◌, String, Option, none, some, ◌==◌, eq_refl, eq_iff,
  Bool-cases,
}
use redfx.Durations.{Durations}
use redfx.Effect.{succeed}
use redfx.Ref.{key_of, to_decode_error}
use redfx.Ref.Value
use redfx.Redis.Service.{RedisService}
use redfx.Redis.ValueServer.{ValueServer}
use redfx.Script.{Cached}
use redfx.Script.Laws.{ready-cases}
use redfx.Cache.Options.{CacheOptions, Runtime}
use redfx.Cache.Core.{store, release_lock, lock_key_of}
use redfx.Cache.Lock.{
  LockServer, KnowsSha, ready_state, run-cases, release-outside, release_lock_lem,
}
use redfx.Cache.Stampede.{Server, works, is_own, drop}

drop_own :
    (token : String) (lock : Option String) → lock ≡ some token → drop token works lock ≡ none
unfolding drop is_own
drop_own token lock own = rw (own, eq_refl token) refl

drop_other :
    (token : String) (lock : Option String) → lock ≢ some token → drop token works lock ≡ lock
unfolding drop is_own
drop_other token none other = refl
drop_other token (some t) other = elim (Bool-cases (t == token)) [
  | inl same ↦ absurd (other (ap some ((eq_iff t token).0 same)))
  | inr differs ↦ rw differs refl
]

abbrev pub freed : {A : Type 0} → String → Server A → Server A
freed token m = record { value = m.value; lock = drop token works m.lock }

module _ {W E A : Type 0} {durations : Durations} (r : RedisService W durations)
    (options : CacheOptions W durations.DurationInput E A) (key lock_key : String) where
  -- What a round relies on of the server: its values and its locks do not meet, and the lookup
  -- changes neither.
  pub record RoundServer : Type 0 where
    pub values : ValueServer r
    pub locks : LockServer r
    pub stored-hold :
        (t : String) (w : W)
        → values.stored (key_of options.prefix key) (locks.hold lock_key t w)
          ≡ values.stored (key_of options.prefix key) w
    pub holder-hold :
        (t : String) (w : W) → locks.holder lock_key (locks.hold lock_key t w) ≡ some t
    pub stored-refused :
        (t : String) (w : W)
        → values.stored (key_of options.prefix key) (locks.refused lock_key t w)
          ≡ values.stored (key_of options.prefix key) w
    pub holder-refused :
        (t : String) (w : W)
        → locks.holder lock_key (locks.refused lock_key t w) ≡ locks.holder lock_key w
    pub holder-put :
        (s : String) (w : W)
        → locks.holder lock_key (values.put (key_of options.prefix key) s w)
          ≡ locks.holder lock_key w
    pub stored-unlock :
        (w : W)
        → values.stored (key_of options.prefix key) (locks.unlock lock_key w)
          ≡ values.stored (key_of options.prefix key) w
    pub stored-loaded :
        (w : W)
        → values.stored (key_of options.prefix key) (locks.scripts.loaded w)
          ≡ values.stored (key_of options.prefix key) w
    pub stored-lookup :
        (w : W)
        → values.stored (key_of options.prefix key) (options.lookup key w).1
          ≡ values.stored (key_of options.prefix key) w
    pub holder-lookup :
        (w : W) → locks.holder lock_key (options.lookup key w).1 ≡ locks.holder lock_key w

module _ {W E A : Type 0} {durations : Durations} (r : RedisService W durations)
    (runtime : Runtime W) (options : CacheOptions W durations.DurationInput E A) (key : String)
    (server : RoundServer r options key (lock_key_of r runtime options key))
    (encodes : (a : A) → (s : String) × (options.schema.encode a ≡ succeed s))
    (lawful : (a : A) (s : String)
      → options.schema.encode a ≡ succeed s
      → options.schema.decode s ≡ succeed a) where
  open server use {
    values, locks, stored-hold, holder-hold, stored-refused, holder-refused, holder-put,
    stored-unlock, stored-loaded, stored-lookup, holder-lookup,
  }

  abbrev pub full : String
  full = key_of options.prefix key

  abbrev pub lock_key : String
  lock_key = lock_key_of r runtime options key

  -- The value that a stored text stands for.
  abbrev pub StandsFor : Option A → Option String → Type 0
  StandsFor value none = value ≡ none
  StandsFor value (some s) = (a : A) × (options.schema.decode s ≡ succeed a) × (value ≡ some a)

  -- The server of the step relation, as it stands in a state of the program.
  abbrev pub Models : Server A → W → Type 0
  Models m w = StandsFor m.value (values.stored full w) × (locks.holder lock_key w ≡ m.lock)

  pub Models-store :
      (a : A) (m : Server A) (s : Cached W)
      → Models m s.outside
      → let (result, s') = store r runtime options key a s in
        (result ≡ succeed a) × Models (record { value = some a; lock = m.lock }) s'.outside
  unfolding store Value.set to_decode_error
  Models-store a m s (value, lock) =
      let (text, same) = encodes a in
      rw (same, values.set_lem, values.stored-put full text s.outside, holder-put)
        (refl, ((a, lawful a text same, refl), lock))

  module _ (token : String) where
    stored-release :
        (s : Cached W)
        → KnowsSha r runtime options locks s.cached_sha
        → values.stored full (release_lock r runtime options lock_key token s).1.outside
          ≡ values.stored full s.outside
    stored-release s known =
        let ready = ready_state r runtime options locks s.cached_sha s.outside in
        ap (values.stored full) (release-outside r runtime options locks lock_key token s known)
        ∙ elim (run-cases r runtime options locks lock_key token ready) [
          | inl kept ↦ ap (values.stored full) kept
          | inr dropped ↦ ap (values.stored full) dropped ∙ stored-unlock ready
        ]
        ∙ elim (ready-cases _ _ _ locks.scripts s.cached_sha s.outside) [
          | inl same ↦ ap (values.stored full) same
          | inr fresh ↦ ap (values.stored full) fresh ∙ stored-loaded s.outside
        ]

    pub release-Models :
        (m : Server A) (s : Cached W)
        → KnowsSha r runtime options locks s.cached_sha
        → Models m s.outside
        → Models (freed token m) (release_lock r runtime options lock_key token s).1.outside
    release-Models m s known (value, lock) =
        let (own, other) = release_lock_lem r runtime options locks lock_key token s known in
        (
          rw (stored-release s known) value,
          elim (locks.held lock_key token s.outside) [
            | yes mine ↦ own mine ∙ sym (drop_own token m.lock (sym lock ∙ mine))
            | no theirs ↦
                other theirs ∙ lock ∙ sym (drop_other token m.lock (λ mine. theirs (lock ∙ mine)))
          ],
        )
