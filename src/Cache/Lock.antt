-- ===== src/Cache/Lock.antt =====
-- The lock of `tryRound`: who holds it after a round.
use redfx.Common.{
  ap, ◌⊎◌, inl, inr, ◌∙◌, Option-cases, String, ◌≡◌, ◌≢◌, refl, Bool, true, false, List, [], ◌∷◌,
  ◌++◌, Option, none, some, length,
}
use redfx.Js.Text.{show}
use redfx.Durations.{Durations}
use redfx.Resp.{str, null}
use redfx.Effect.{Exit, succeed, fail, die, Exit-cases, succeeded, failed, died}
use redfx.Run.{continue, map_effect}
use redfx.Ref.{key_of}
use redfx.Ref.Value
use redfx.RedisCommand.{text}
use redfx.Redis.Service.{RedisService}
use redfx.Script.{Cached}
use redfx.Script.Laws.{ScriptServer, Knows, ready, ready-cases, script-outside}
use redfx.Cache.Options.{CacheError, CacheOptions, Runtime, ResolvedStampede}
use redfx.Cache.ReleaseScript.{
  release_lua, release_program, block_text, release_lua-text, release, release_lem,
}
use redfx.Cache.Core.{
  ref_options, store, release_lock, acquire_lock, lock_reply, use_lock, drop_lock, under_lock,
  try_round, lock_key_of, ref_get, lookup_and_store,
}

abbrev pub release_tail : String → String → List String
release_tail lock_key token = show (length (lock_key ∷ [])) ∷ (lock_key ∷ [] ++ token ∷ [])

-- What the cache relies on of the server for its locks: what a lock's key holds, that SET NX answers and
-- takes one that is free and no other, that the server runs the release script as the program of Lua
-- whose text it is, with its own GET and DEL of the lock's key, and that neither GET nor a refused SET nor
-- SCRIPT LOAD takes a lock. A lock may expire during a GET or a refused SET.
pub record LockServer {W : Type 0} {durations : Durations} (r : RedisService W durations)
    : Type 0 where
  pub scripts : ScriptServer r.call release_lua
  pub holder : String → W → Option String
  pub refused : String → String → W → W
  pub hold : String → String → W → W
  pub take_free :
      (lock_key token ms : String) (w : W)
      → holder lock_key w ≡ none
      → r.call "SET" (text lock_key ∷ text token ∷ text "PX" ∷ text ms ∷ text "NX" ∷ []) w
        ≡ (succeed (str "OK"), hold lock_key token w)
  pub take_held :
      (lock_key token ms t : String) (w : W)
      → holder lock_key w ≡ some t
      → r.call "SET" (text lock_key ∷ text token ∷ text "PX" ∷ text ms ∷ text "NX" ∷ []) w
        ≡ (succeed null, refused lock_key token w)
  pub refused_lem :
      (lock_key token : String) (w : W)
      → holder lock_key w ≢ some token
      → holder lock_key (refused lock_key token w) ≢ some token
  pub unlock : String → W → W
  pub holder-unlock : (lock_key : String) (w : W) → holder lock_key (unlock lock_key w) ≡ none
  pub run_lem :
      (lock_key token : String) (w : W)
      → release_lua ≡ block_text release_program
      → (scripts.run (release_tail lock_key token) w).1 ≡ (release holder unlock lock_key token w).1
  pub get_lem :
      (lock_key key token : String) (w : W)
      → holder lock_key w ≢ some token
      → holder lock_key (r.get key w).1 ≢ some token
  pub holder-loaded :
      (lock_key : String) (w : W) → holder lock_key (scripts.loaded w) ≡ holder lock_key w
  pub held : (lock_key token : String) (w : W) → Dec (holder lock_key w ≡ some token)

module _ {W E A : Type 0} {durations : Durations} (r : RedisService W durations)
    (runtime : Runtime W) (options : CacheOptions W durations.DurationInput E A)
    (server : LockServer r) where
  open server use {
    scripts, holder, take_free, take_held, unlock, holder-unlock, run_lem, get_lem, refused_lem,
    holder-loaded, held,
  }

  abbrev pub KnowsSha : Option String → Type 0
  KnowsSha = Knows r.call release_lua runtime.number_result scripts

  abbrev pub ready_state : Option String → W → W
  ready_state = ready r.call release_lua runtime.number_result scripts

  holder-ready :
      (cached : Option String) (lock_key : String) (w : W)
      → holder lock_key (ready_state cached w) ≡ holder lock_key w
  holder-ready cached lock_key w =
      elim (ready-cases r.call release_lua runtime.number_result scripts cached w) [
        | inl same ↦ rw same refl
        | inr fresh ↦ rw fresh (holder-loaded lock_key w)
      ]

  run_own :
      (lock_key token : String) (w : W)
      → holder lock_key w ≡ some token
      → holder lock_key (scripts.run (release_tail lock_key token) w).1 ≡ none
  run_own lock_key token w own =
      ap (holder lock_key) (
        run_lem lock_key token w release_lua-text
        ∙ (release_lem holder unlock lock_key token w).0 own)
      ∙ holder-unlock lock_key w

  run_other :
      (lock_key token : String) (w : W)
      → holder lock_key w ≢ some token
      → (scripts.run (release_tail lock_key token) w).1 ≡ w
  run_other lock_key token w other =
      run_lem lock_key token w release_lua-text
      ∙ (release_lem holder unlock lock_key token w).1 other

  -- The release script leaves the server as it is, or with the lock's key deleted.
  pub run-cases :
      (lock_key token : String) (w : W)
      → ((scripts.run (release_tail lock_key token) w).1 ≡ w)
        ⊎ ((scripts.run (release_tail lock_key token) w).1 ≡ unlock lock_key w)
  run-cases lock_key token w = elim (held lock_key token w) [
    | yes own ↦ inr (
        run_lem lock_key token w release_lua-text
        ∙ (release_lem holder unlock lock_key token w).0 own)
    | no other ↦ inl (run_other lock_key token w other)
  ]

  pub release-outside :
      (lock_key token : String) (s : Cached W)
      → KnowsSha s.cached_sha
      → (release_lock r runtime options lock_key token s).1.outside
        ≡ (scripts.run (release_tail lock_key token) (ready_state s.cached_sha s.outside)).1
  unfolding release_lock
  release-outside lock_key token s known =
      script-outside r.call release_lua runtime.number_result scripts (lock_key ∷ []) (token ∷ [])
        s.cached_sha s.outside known

  -- Over a server that answers the release script, and runs it as the program that it is, a release
  -- drops the lock if it holds the caller's token, and leaves any other lock as it is, one
  -- that another caller took after the own had expired included. The closure of the release script
  -- knows no other SHA than the server's.
  pub release_lock_lem :
      (lock_key token : String) (s : Cached W)
      → KnowsSha s.cached_sha
      → let s' = (release_lock r runtime options lock_key token s).1 in
        (holder lock_key s.outside ≡ some token → holder lock_key s'.outside ≡ none)
        × (holder lock_key s.outside ≢ some token
            → holder lock_key s'.outside ≡ holder lock_key s.outside)
  release_lock_lem lock_key token s known =
      let same = holder-ready s.cached_sha lock_key s.outside in
      rw (release-outside lock_key token s known) (
        λ own. run_own lock_key token _ (same ∙ own),
        λ other. ap (holder lock_key) (run_other lock_key token _ (rw same other)) ∙ same,
      )

  -- After a release nobody holds the lock with the caller's token.
  release-NotHeld :
      (lock_key token : String) (s : Cached W)
      → KnowsSha s.cached_sha
      → holder lock_key (release_lock r runtime options lock_key token s).1.outside ≢ some token
  release-NotHeld lock_key token s known =
      let (own, other) = release_lock_lem lock_key token s known in
      elim (held lock_key token s.outside) [
        | yes mine ↦ rw (own mine) (λ h. cc)
        | no theirs ↦ rw (other theirs) theirs
      ]

  stored-cached :
      (key : String) (a : A) (s : Cached W)
      → (map_effect some (store r runtime options key a) s).1.cached_sha ≡ s.cached_sha
  unfolding store
  stored-cached key a s =
      elim (Exit-cases
        (Value.set r options.schema (ref_options r runtime options) (key_of options.prefix key) a
          (record { ttl = some options.ttl; keep_ttl = false }) s.outside).0) [
            | succeeded x set ↦ rw set refl
            | failed e set ↦ rw set refl
            | died d set ↦ rw set refl
          ]

  pub use_lock-cached :
      (key : String) (acquired : Bool) (s : Cached W)
      → (use_lock r runtime options key acquired s).1.cached_sha ≡ s.cached_sha
  unfolding use_lock lookup_and_store
  use_lock-cached key false s = refl
  use_lock-cached key true s = elim (Exit-cases (options.lookup key s.outside).0) [
    | succeeded a found ↦ rw found (stored-cached key a _)
    | failed e found ↦ rw found refl
    | died d found ↦ rw found refl
  ]

  abbrev pub NotHeld : String → String → Cached W → Type 0
  NotHeld lock_key token s = holder lock_key s.outside ≢ some token

  under_lock-NotHeld :
      (key lock_key ms token : String) (found : Option A) (s : Cached W)
      → KnowsSha s.cached_sha
      → NotHeld lock_key token s
      → NotHeld lock_key token (under_lock r runtime options key lock_key ms token found s).1
  unfolding under_lock acquire_lock lock_reply drop_lock
  under_lock-NotHeld key lock_key ms token (some a) s known free = free
  under_lock-NotHeld key lock_key ms token none s known free =
      elim (Option-cases (holder lock_key s.outside)) [
        | inl nobody ↦
            rw (take_free lock_key token ms s.outside nobody)
              (release-NotHeld lock_key token _ (rw use_lock-cached known))
        | inr (t, theirs) ↦
            rw (take_held lock_key token ms t s.outside theirs)
              (refused_lem lock_key token s.outside free)
      ]

  get-outside :
      (key : String) (w : W)
      → (Value.get r options.schema (ref_options r runtime options) key w).1 ≡ (r.get key w).1
  unfolding Value.get
  get-outside key w = elim (Exit-cases (r.get key w).0) [
    | succeeded v got ↦ elim (Option-cases v) [
      | inl missing ↦ rw (got, missing) refl
      | inr (s, there) ↦ rw (got, there) refl
    ]
    | failed e got ↦ rw got refl
    | died d got ↦ rw got refl
  ]

  continue-NotHeld :
      (key lock_key ms token : String) (found : Exit (CacheError E) (Option A)) (s : Cached W)
      → KnowsSha s.cached_sha
      → NotHeld lock_key token s
      → NotHeld lock_key token
          (continue found (under_lock r runtime options key lock_key ms token) s).1
  continue-NotHeld key lock_key ms token (succeed found) s known free =
      under_lock-NotHeld key lock_key ms token found s known free
  continue-NotHeld key lock_key ms token (fail e) s known free = free
  continue-NotHeld key lock_key ms token (die d) s known free = free

  -- Over a server that answers SET NX and the release script, if nobody held the key's lock with the
  -- caller's token before a round, nobody does after it: the
  -- round took no lock, or released it, be the lookup or the store a success, a failure or a defect.
  -- The closure of the release script knows no other SHA than the server's.
  pub try_round_releases :
      (key : String) (st : ResolvedStampede durations.DurationInput) (token : String) (s : Cached W)
      → KnowsSha s.cached_sha
      → NotHeld (lock_key_of r runtime options key) token s
      → NotHeld
          (lock_key_of r runtime options key)
          token
          (try_round r runtime options key st token s).1
  unfolding try_round
  try_round_releases key st token s known free =
      continue-NotHeld key (lock_key_of r runtime options key) _ token
        (ref_get r runtime options key s).0 (ref_get r runtime options key s).1 known
        (rw get-outside (get_lem _ _ token s.outside free))
