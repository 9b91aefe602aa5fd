-- ===== src/Cache/ReadThrough.antt =====
-- What a cache (`RedisCache.make` of packages/core/src/Cache.ts) returns behind a write.
use redfx.Common.{ℕ, suc, Option, none, ◌∙◌, String, ◌≡◌, ◌⊎◌, refl, some, Option-cases, inl, inr}
use mathlib.Core.Path.{subst}
use redfx.Durations.{Durations}
use redfx.Effect.{Exit, succeed, fail, die, Exit-cases, succeeded, failed, died}
use redfx.Redis.Service.{RedisService}
use redfx.Redis.ValueServer.{ValueServer}
use redfx.Ref.{key_of, delete, to_decode_error}
use redfx.Ref.Value
use redfx.Script.{Cached}
use redfx.Cache.Options.{CacheError, CacheOptions, Runtime, ResolvedStampede, resolve_stampede}
use redfx.Cache.Core.{
  cache_aside, or_lookup, lookup_and_store, store, del, l2_with, l2_get, stampede_get, loop, settle,
  try_round, under_lock,
}

module _ {W E A : Type 0} {durations : Durations} (r : RedisService W durations)
    (runtime : Runtime W) (options : CacheOptions W durations.DurationInput E A)
    (server : ValueServer r)
    (lawful : (a : A) (s : String)
      → options.schema.encode a ≡ succeed s
      → options.schema.decode s ≡ succeed a) where
  open server use {stored, put, drop, get_lem, set_lem, del_lem, stored-put, stored-drop}

  abbrev full : String → String
  full key = key_of options.prefix key

  -- The value that an outcome returned is stored on the server.
  abbrev Reads : String → Exit (CacheError E) A × Cached W → Type 0
  Reads key (succeed a, st) =
      (s : String) × (stored (full key) st.outside ≡ some s) × (options.schema.decode s ≡ succeed a)
  Reads key (fail e, st) = Unit {0}
  Reads key (die d, st) = Unit {0}

  store-Reads :
      (key : String) (a : A) (st : Cached W) → Reads key (store r runtime options key a st)
  unfolding store Value.set to_decode_error Value.set_options
  store-Reads key a st = elim (Exit-cases (options.schema.encode a)) [
    | succeeded s encodes ↦ rw (encodes, set_lem) (s, stored-put _ _ _, lawful a s encodes)
    | failed e encodes ↦ rw encodes tt
    | died d encodes ↦ rw encodes tt
  ]

  refresh-Reads :
      (key : String) (st : Cached W) → Reads key (lookup_and_store r runtime options key st)
  unfolding lookup_and_store
  refresh-Reads key st = elim (Exit-cases (options.lookup key st.outside).0) [
    | succeeded a found ↦ rw found (store-Reads key a _)
    | failed e found ↦ rw found tt
    | died d found ↦ rw found tt
  ]

  cache_aside-Reads :
      (key : String) (st : Cached W) → Reads key (cache_aside r runtime options key st)
  unfolding cache_aside or_lookup Value.get to_decode_error
  cache_aside-Reads key st = elim (Option-cases (stored (full key) st.outside)) [
    | inl missing ↦ rw (get_lem, missing) (refresh-Reads key st)
    | inr (s, found) ↦ elim (Exit-cases (options.schema.decode s)) [
      | succeeded a decodes ↦ rw (get_lem, found, decodes) (s, found, decodes)
      | failed e decodes ↦ rw (get_lem, found, decodes) tt
      | died d decodes ↦ rw (get_lem, found, decodes) tt
    ]
  ]

  -- The state behind a get that found its value: with stampede protection, it has drawn a token.
  abbrev pub drawn : Option (ResolvedStampede durations.DurationInput) → Cached W → Cached W
  drawn none st = st
  drawn (some stampede) st = record st { outside = (runtime.random_uuid st.outside).1 }

  module _ (steady : (k : String) (w : W) → stored k (runtime.random_uuid w).1 ≡ stored k w) where
    l2_with-Reads :
        (rounds : ℕ) (key : String) (a : A)
        (stampede : Option (ResolvedStampede durations.DurationInput)) (st : Cached W)
        → Reads key (succeed a, st)
        → l2_with r runtime options (suc rounds) key stampede st
          ≡ some (succeed a, drawn stampede st)
    unfolding l2_with cache_aside or_lookup stampede_get loop settle try_round under_lock Value.get
        to_decode_error
    l2_with-Reads rounds key a none st (s, found, decodes) = rw (get_lem, found, decodes) refl
    l2_with-Reads rounds key a (some stampede) st (s, found, decodes) =
        let there = steady (full key) st.outside ∙ found in rw (get_lem, there, decodes) refl

    -- What a set or a refresh of a cache stored, with or without stampede protection, or what a get
    -- without it returned, is what the next get returns: it finds the value on the server in its first
    -- round, and neither runs the lookup nor takes a lock. It leaves the state as it is, but for the
    -- token that a get with stampede protection draws. The server answers GET and SET and the value
    -- has not expired; the schema decodes what it encodes.
    pub cached_value_is_read :
        (rounds : ℕ) (key : String) (a : A) (st st' : Cached W)
        → (cache_aside r runtime options key st ≡ (succeed a, st'))
          ⊎ (lookup_and_store r runtime options key st ≡ (succeed a, st'))
          ⊎ (store r runtime options key a st ≡ (succeed a, st'))
        → l2_get r runtime options (suc rounds) key st'
          ≡ some (succeed a, drawn (resolve_stampede durations options.stampede) st')
    unfolding l2_get
    cached_value_is_read rounds key a st st' (inl got) =
        l2_with-Reads rounds key a (resolve_stampede durations options.stampede) st'
          (subst (Reads key) got (cache_aside-Reads key st))
    cached_value_is_read rounds key a st st' (inr (inl refreshed)) =
        l2_with-Reads rounds key a (resolve_stampede durations options.stampede) st'
          (subst (Reads key) refreshed (refresh-Reads key st))
    cached_value_is_read rounds key a st st' (inr (inr set)) =
        l2_with-Reads rounds key a (resolve_stampede durations options.stampede) st'
          (subst (Reads key) set (store-Reads key a st))

  -- After an invalidation, a get runs the lookup, even where the value was cached.
  invalidated_is_looked_up :
      (key : String) (st : Cached W)
      → let st' = (del r runtime options key st).1 in
        cache_aside r runtime options key st' ≡ lookup_and_store r runtime options key st'
  unfolding cache_aside or_lookup Value.get del delete to_decode_error
  invalidated_is_looked_up key st = rw (del_lem, get_lem, stored-drop) refl
