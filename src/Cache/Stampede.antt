-- ===== src/Cache/Stampede.antt =====
-- Several callers of a cache with stampede protection (`stampedeGet` of packages/core/src/Cache.ts),
-- over one server, their commands interleaved in any order. The commands of `try_round` and the loop
-- around it are the points at which another caller may run.
pub mod Safety
pub mod SingleFlight
pub mod Runs
pub mod Modelled
pub mod Refinement
use redfx.Common.{
  ℕ, suc, ◌+◌, ◌≢◌, ◌≡◌, String, Bool, true, false, Option, none, some, eqb, if◌then◌else◌, ◌==◌,
}
use redfx.RedisError.{RedisError}
use redfx.Effect.{Exit, succeed, fail, die}
use redfx.Cache.Options.{CacheError, redis_error, OnTimeout, compute, give_up}

-- What the server holds for one cached key: its value, and the token in its lock.
pub record Server (A : Type 0) : Type 0 where
  pub value : Option A
  pub lock : Option String

-- The answer to a command: it worked, or the reply was lost, when the command may have been applied.
pub data Reply : Type 0 where
  works : Reply
  lost : RedisError → Bool → Reply

-- Where a caller stands in its round: before its GET, before its SET NX, before the lookup, before
-- the SET of the value, before the release, after a refused lock, in the lookup without the lock
-- behind a timeout, at its end; or its process is gone.
pub data Pc (E A : Type 0) : Type 0 where
  reading taking looking waiting unlocked gone : Pc E A
  storing storing_unlocked : A → Pc E A
  releasing finished : Exit (CacheError E) A → Pc E A

-- What the outside answers a caller.
pub record Answer (E A : Type 0) : Type 0 where
  pub reply : Reply
  pub lookup : Exit (CacheError E) A
  pub timed_out : Bool

unfoldable pub is_own : String → Option String → Bool
is_own token none = false
is_own token (some t) = t == token

module _ {E A : Type 0} where
  unfoldable pub after_get : Reply → Option A → Pc E A
  after_get (lost e applied) value = finished (fail (redis_error e))
  after_get works none = taking
  after_get works (some a) = finished (succeed a)

  -- SET NX, and what `tryRound` makes of its reply.
  unfoldable pub take : String → Reply → Option String → Option String × Pc E A
  take token works none = (some token, looking)
  take token works (some t) = (some t, waiting)
  take token (lost e applied) none =
      (if applied then some token else none, finished (fail (redis_error e)))
  take token (lost e applied) (some t) = (some t, finished (fail (redis_error e)))

  unfoldable pub after_lookup : Exit (CacheError E) A → Pc E A
  after_lookup (succeed a) = storing a
  after_lookup (fail e) = releasing (fail e)
  after_lookup (die d) = releasing (die d)

  unfoldable pub stored : Reply → A → Exit (CacheError E) A
  stored works a = succeed a
  stored (lost e applied) a = fail (redis_error e)

  unfoldable pub after_wait : CacheError E → Bool → OnTimeout → Pc E A
  after_wait timeout false on = reading
  after_wait timeout true compute = unlocked
  after_wait timeout true give_up = finished (fail timeout)

  unfoldable pub after_unlocked : Exit (CacheError E) A → Pc E A
  after_unlocked (succeed a) = storing_unlocked a
  after_unlocked (fail e) = finished (fail e)
  after_unlocked (die d) = finished (die d)

unfoldable pub put : {A : Type 0} → Reply → A → Option A → Option A
put works a value = some a
put (lost e applied) a value = if applied then some a else value

-- The release script, whose failure is ignored.
unfoldable pub drop : String → Reply → Option String → Option String
unfolding is_own
drop token works lock = if is_own token lock then none else lock
drop token (lost e applied) lock =
    if applied then (if is_own token lock then none else lock) else lock

module _ {E A : Type 0} (on_timeout : OnTimeout) (timeout : CacheError E) (token : String) where
  -- One move of a caller with this token.
  unfoldable pub move : Answer E A → Server A → Pc E A → Server A × Pc E A
  unfolding after_get take after_lookup put stored drop after_wait after_unlocked
  move x m reading = (m, after_get x.reply m.value)
  move x m taking =
      let (lock, p) = take token x.reply m.lock in (record { value = m.value; lock = lock }, p)
  move x m looking = (m, after_lookup x.lookup)
  move x m (storing a) =
      (record { value = put x.reply a m.value; lock = m.lock }, releasing (stored x.reply a))
  move x m (releasing o) =
      (record { value = m.value; lock = drop token x.reply m.lock }, finished o)
  move x m waiting = (m, after_wait timeout x.timed_out on_timeout)
  move x m unlocked = (m, after_unlocked x.lookup)
  move x m (storing_unlocked a) =
      (record { value = put x.reply a m.value; lock = m.lock }, finished (stored x.reply a))
  move x m (finished o) = (m, finished o)
  move x m gone = (m, gone)

-- Between taking the lock and releasing it.
abbrev pub critical : {E A : Type 0} → Pc E A → Bool
critical looking = true
critical (storing a) = true
critical (releasing o) = true
critical _ = false

-- The lookups that a caller begins by a move.
abbrev pub begins : {E A : Type 0} → Pc E A → ℕ
begins looking = 1
begins unlocked = 1
begins _ = 0

abbrev pub update {ℓ} : {A : Type ℓ} → (ℕ → A) → ℕ → A → ℕ → A
update f i a j = if eqb i j then a else f j

-- The callers, of whom all but finitely many never move; how many lookups they have run.
pub record System (E A : Type 0) : Type 0 where
  pub server : Server A
  pub pc : ℕ → Pc E A
  pub lookups : ℕ

module _ {E A : Type 0} (on_timeout : OnTimeout) (timeout : CacheError E) (token : ℕ → String) where
  unfoldable pub turn : ℕ → Answer E A → System E A → System E A
  unfolding move
  turn i x s =
      let (m, p) = move on_timeout timeout (token i) x s.server (s.pc i) in
      record { server = m; pc = update s.pc i p; lookups = s.lookups + begins (s.pc i) }

  -- A caller moves, or its process dies; the value expires or is invalidated; a lock expires, whose
  -- TTL is longer than any lookup, so that its holder is not between taking and releasing it.
  pub data Step (s : System E A) : System E A → Type 0 where
    pick : (i : ℕ) (x : Answer E A) → Step s (turn i x s)
    dies : (i : ℕ) → Step s (record s { pc = update s.pc i gone })
    value_gone : Step s (record s { server = record { value = none; lock = s.server.lock } })
    lock_gone :
        ((i : ℕ) → s.server.lock ≡ some (token i) → critical (s.pc i) ≡ false)
        → Step s (record s { server = record { value = s.server.value; lock = none } })

  pub data Reach (s : System E A) : System E A → Type 0 where
    here : Reach s s
    later : {t u : System E A} → Reach s t → Step t u → Reach s u

-- Every caller is about to read; no lock is held.
abbrev pub start : {E A : Type 0} → Option A → System E A
start value = record {
  server = record { value = value; lock = none };
  pc = λ i. reading;
  lookups = 0;
}
