-- ===== src/Cache/Stampede/Refinement.antt =====
-- That a caller of the step relation of Cache.Stampede does what a round of `tryRound` does: the
-- round of Cache.Core, over a server that answers and between two expiries, is a run of the caller.
use redfx.Common.{
  ◌≢◌, ◌≡◌, inl, inr, refl, sym, ◌∙◌, String, true, Option, none, some, Option-cases,
}
use redfx.Durations.{Durations}
use redfx.Effect.{
  Exit, succeed, fail, die, Exit-cases, succeeded, failed, died, map_exit, map_error,
}
use redfx.Ref.{to_decode_error}
use redfx.Ref.Value
use redfx.Redis.Service.{RedisService}
use redfx.Script.{Cached}
use redfx.Cache.Options.{
  CacheError, lookup_error, CacheOptions, Runtime, ResolvedStampede, OnTimeout,
}
use redfx.Cache.Core.{
  lookup_and_store, use_lock, drop_lock, released, release_lock, under_lock, acquire_lock,
  lock_reply, try_round, lock_key_of,
}
use redfx.Cache.Lock.{KnowsSha, use_lock-cached}
use redfx.Cache.Stampede.{Server, Pc, reading, looking, waiting, releasing, finished, move}
use redfx.Cache.Stampede.Runs.{Runs, rests, moves, followed, read_value, take_free, take_held}
use redfx.Cache.Stampede.Modelled.{
  RoundServer, Models, Models-store, release-Models, freed, full, lock_key,
}

module _ {W E A : Type 0} {durations : Durations} (r : RedisService W durations)
    (runtime : Runtime W) (options : CacheOptions W durations.DurationInput E A) (key : String)
    (server : RoundServer r options key (lock_key_of r runtime options key))
    (encodes : (a : A) → (s : String) × (options.schema.encode a ≡ succeed s))
    (lawful : (a : A) (s : String)
      → options.schema.encode a ≡ succeed s
      → options.schema.decode s ≡ succeed a) where
  open server use {
    values, locks, stored-hold, holder-hold, stored-refused, holder-refused, holder-put,
    stored-loaded, stored-lookup, holder-lookup,
  }

  abbrev value_key : String
  value_key = full r runtime options key server encodes lawful

  abbrev lock_name : String
  lock_name = lock_key r runtime options key server encodes lawful

  abbrev Modelled : Server A → W → Type 0
  Modelled m w = Models r runtime options key server encodes lawful m w

  module _ (on_timeout : OnTimeout) (timeout : CacheError E) (token : String)
      (no_defect : (s : Cached W) (d : String)
        → KnowsSha r runtime options locks s.cached_sha
        → (release_lock r runtime options lock_name token s).0 ≢ die d) where
    abbrev RunsTo : Exit (CacheError E) A → Server A → Pc E A → Server A → Pc E A → Type 0
    RunsTo found m p m' p' = Runs on_timeout timeout token found m p m' p'

    abbrev with_lock : Server A → Option String → Server A
    with_lock m lock = record { value = m.value; lock = lock }

    -- The lookup and the store are a run from `looking` to `releasing`.
    data Looked (found : Exit (CacheError E) A) (m : Server A)
        (result : Exit (CacheError E) (Option A)) (w : W) : Type 0 where
      looked :
          (m' : Server A) (o : Exit (CacheError E) A)
          → RunsTo found m looking m' (releasing o)
          → result ≡ map_exit some o
          → Modelled m' w
          → Looked found m result w

    use_lock-Looked :
        (m : Server A) (s : Cached W)
        → Modelled m s.outside
        → let found = map_error lookup_error (options.lookup key s.outside).0 in
          let (result, s') = use_lock r runtime options key true s in
          Looked found m result s'.outside
    unfolding use_lock lookup_and_store move
    use_lock-Looked m s (value, lock) =
        let w = (options.lookup key s.outside).1 in
        let kept : Modelled m w =
          (rw (stored-lookup s.outside) value, holder-lookup s.outside ∙ lock) in
        elim (Exit-cases (options.lookup key s.outside).0) [
          | succeeded a found ↦
              let (stored, after) =
                Models-store r runtime options key server encodes lawful a m
                  (record s { outside = w }) kept in
              rw found (
                looked (record { value = some a; lock = m.lock }) (succeed a) (moves (moves rests))
                  (rw stored refl) (rw stored after))
          | failed e found ↦ rw found (looked m (fail (lookup_error e)) (moves rests) refl kept)
          | died d found ↦ rw found (looked m (die d) (moves rests) refl kept)
        ]

    released-lem :
        (result : Exit (CacheError E) (Option A)) (ended : Exit (CacheError E) (Unit {0}))
        → ((d : String) → ended ≢ die d)
        → released r runtime options result ended ≡ result
    unfolding released
    released-lem result (succeed u) sound = refl
    released-lem result (fail e) sound = refl
    released-lem result (die d) sound = absurd (sound d refl)

    -- What a round returned, against where the caller of the step relation stands.
    pub data Ends (result : Exit (CacheError E) (Option A)) (p : Pc E A) : Type 0 where
      returned :
          (o : Exit (CacheError E) A) → result ≡ map_exit some o → p ≡ finished o → Ends result p
      refused : result ≡ succeed none → p ≡ waiting → Ends result p

    abbrev found_by : W → Exit (CacheError E) A
    found_by w = map_error lookup_error (options.lookup key (locks.hold lock_name token w)).0

    -- What the round of a caller comes to behind a run of the step relation to `looking`.
    release_run :
        (found : Exit (CacheError E) A) (m m1 : Server A) (s1 : Cached W)
        → KnowsSha r runtime options locks s1.cached_sha
        → RunsTo found m reading m1 looking
        → let (result, s2) = use_lock r runtime options key true s1 in
          let (ended, s3) = release_lock r runtime options lock_name token s2 in
          Looked found m1 result s2.outside
          → (m' : Server A) × (p : Pc E A) × RunsTo found m reading m' p
            × Ends (released r runtime options result ended) p
            × Modelled m' s3.outside
    unfolding move
    release_run found m m1 s1 known run (looked m2 o later same models) =
        let (result, s2) = use_lock r runtime options key true s1 in
        let ended = (release_lock r runtime options lock_name token s2).0 in
        let known2 : KnowsSha r runtime options locks s2.cached_sha =
          rw (use_lock-cached r runtime options locks key true s1) known in
        (
          freed token m2,
          finished o,
          moves (followed on_timeout timeout token run later),
          returned o (released-lem result ended (λ d. no_defect s2 d known2) ∙ same) refl,
          release-Models r runtime options key server encodes lawful token m2 s2 known2 models,
        )

    -- A round of a state that a server of the step relation models is a run of its caller from
    -- `reading` on, to a server that models the state behind the round: the caller has finished with
    -- what the round returned, or it waits, where the round came to nothing since the lock is held.
    pub try_round_refines :
        (st : ResolvedStampede durations.DurationInput) (m : Server A) (s : Cached W)
        → KnowsSha r runtime options locks s.cached_sha
        → Modelled m s.outside
        → let (result, s') = try_round r runtime options key st token s in
          (m' : Server A) × (p : Pc E A) × RunsTo (found_by s.outside) m reading m' p
          × Ends result p
          × Modelled m' s'.outside
    unfolding try_round under_lock acquire_lock lock_reply drop_lock Value.get to_decode_error
    try_round_refines st m s known (value, lock) =
        let found = found_by s.outside in
        elim (Option-cases (values.stored value_key s.outside)) [
          | inr (t, there) ↦
              let (a, decodes, has) = rw there at value in
              rw (values.get_lem, there, decodes)
                (
                  m,
                  finished (succeed a),
                  read_value on_timeout timeout token found m a has,
                  returned (succeed a) refl refl,
                  (value, lock),
                )
          | inl missing ↦
              let no_value : m.value ≡ none = rw missing at value in
              elim (Option-cases (locks.holder lock_name s.outside)) [
                | inr (t, theirs) ↦
                    rw
                      (
                        values.get_lem,
                        missing,
                        locks.take_held lock_name token _ t s.outside theirs,
                      )
                      (
                        with_lock m (some t),
                        waiting,
                        take_held on_timeout timeout token found m t no_value (sym lock ∙ theirs),
                        refused refl refl,
                        (rw stored-refused value, holder-refused token s.outside ∙ theirs),
                      )
                | inl nobody ↦
                    let s1 : Cached W = record s {
                      outside = locks.hold lock_name token s.outside;
                    } in
                    let m1 = with_lock m (some token) in
                    let now : Modelled m1 s1.outside =
                      (rw stored-hold value, holder-hold token s.outside) in
                    rw (values.get_lem, missing, locks.take_free lock_name token _ s.outside nobody)
                      (release_run found m m1 s1 known
                        (take_free on_timeout timeout token found m no_value (sym lock ∙ nobody))
                        (use_lock-Looked m1 s1 now))
              ]
        ]
