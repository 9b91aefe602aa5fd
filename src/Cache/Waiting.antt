-- ===== src/Cache/Waiting.antt =====
-- How long the wait of `stampedeGet` can be (packages/core/src/Cache.ts).
use redfx.Common.{
  ℕ, zero, suc, ◌+◌, ◌≤◌, ◌<◌, ◌≡◌, refl, String, true, Option, none, some, arith, Bool-cases, inl,
  inr,
}
use redfx.Js.Number.{Number, less, of_ℕ}
use redfx.Durations.{Durations}
use redfx.Effect.{Exit, succeed, fail, die}
use redfx.Redis.Service.{RedisService}
use redfx.Script.{Cached}
use redfx.Cache.Options.{CacheError, CacheOptions, Runtime, ResolvedStampede, later}
use redfx.Cache.Core.{Waited, now, sleep, try_round, settle, loop, stampede_get}

less-of_ℕ : (t n m : ℕ) → less (of_ℕ t) (later n (of_ℕ m)) ≡ true → t < n + m
unfolding less later
less-of_ℕ t n m below = grind arith

module _ {W E A : Type 0} {durations : Durations} (r : RedisService W durations)
    (runtime : Runtime W) (options : CacheOptions W durations.DurationInput E A)
    (st : ResolvedStampede durations.DurationInput)
    (forward : (key token : String) (s : Cached W)
      → now r runtime options s
        ≤ now r runtime options (try_round r runtime options key st token s).1)
    (passes : (s : Cached W)
      → now r runtime options s < now r runtime options (sleep r runtime options st s)) where
  abbrev clock : Cached W → ℕ
  clock = now r runtime options

  abbrev Ends : Waited r runtime options → Type 0
  Ends waited = (result : Exit (CacheError E) A × Cached W) × (waited ≡ some result)

  settle-Ends :
      (key : String) (deadline : Number) (result : Exit (CacheError E) (Option A)) (s : Cached W)
      (rest : Waited r runtime options)
      → (less (of_ℕ (clock s)) deadline ≡ true → Ends rest)
      → Ends (settle r runtime options key st deadline result s rest)
  unfolding settle
  settle-Ends key deadline (succeed (some a)) s rest on = (_, refl)
  settle-Ends key deadline (succeed none) s rest on =
      elim (Bool-cases (less (of_ℕ (clock s)) deadline)) [
        | inl before ↦ rw before (on before)
        | inr after ↦ rw after (_, refl)
      ]
  settle-Ends key deadline (fail e) s rest on = (_, refl)
  settle-Ends key deadline (die d) s rest on = (_, refl)

  loop-Ends :
      (rounds n m : ℕ) (key token : String) (s : Cached W)
      → n + m ≤ rounds + clock s
      → Ends (loop r runtime options (suc rounds) key st token (later n (of_ℕ m)) s)
  unfolding loop
  loop-Ends zero n m key token s enough = settle-Ends key _ _ _ _ λ early.
      let small = less-of_ℕ _ n m early in
      let later_now = forward key token s in absurd (omega arith)
  loop-Ends (suc rounds) n m key token s enough =
      let s' = (try_round r runtime options key st token s).1 in
      settle-Ends key _ _ _ _ λ early.
        loop-Ends rounds n m key token (sleep r runtime options st s') (
          let grows = forward key token s in
          let slept = passes s' in let small = less-of_ℕ _ n m early in omega arith)

  -- The wait for another's lookup ends: where a round does not turn the clock back and a sleep takes
  -- a millisecond at least, a wait timeout of m milliseconds allows at most m + 1 rounds, after which
  -- the caller has a value or an error.
  pub stampede_get-Ends :
      (m : ℕ) (key : String) (s : Cached W)
      → durations.to_millis st.wait_timeout ≡ of_ℕ m
      → Ends (stampede_get r runtime options (suc m) key st s)
  unfolding stampede_get
  stampede_get-Ends m key s whole_wait =
      let (token, w) = runtime.random_uuid s.outside in
      rw whole_wait (
        loop-Ends m (runtime.current_time_millis w) m key token (record s { outside = w })
          (omega arith))
