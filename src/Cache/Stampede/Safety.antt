-- ===== src/Cache/Stampede/Safety.antt =====
-- What holds of any number of callers of a cache with stampede protection.
use redfx.Common.{
  Bool-cases, ℕ, ◌≢◌, ◌≡◌, inl, inr, refl, sym, ap, String, true, Option, some, eqb, arith, eq_iff,
}
use redfx.Cache.Options.{CacheError, OnTimeout}
use redfx.Cache.Stampede.{
  Server, Pc, reading, taking, looking, waiting, unlocked, gone, storing, storing_unlocked,
  releasing, finished, Answer, is_own, move, critical, System, turn, Step, pick, dies, value_gone,
  lock_gone, Reach, here, later, start,
}

module _ {E A : Type 0} (on_timeout : OnTimeout) (timeout : CacheError E) (token : ℕ → String)
    (unique : (i j : ℕ) → token i ≡ token j → i ≡ j) where
  -- Whoever is between taking the lock and releasing it holds it.
  abbrev Owned : System E A → Type 0
  Owned s = (i : ℕ) → critical (s.pc i) ≡ true → s.server.lock ≡ some (token i)

  move-owner :
      (t : String) (x : Answer E A) (m : Server A) (p : Pc E A)
      → (critical p ≡ true → m.lock ≡ some t)
      → let (m', p') = move on_timeout timeout t x m p in critical p' ≡ true → m'.lock ≡ some t
  unfolding move
  move-owner t x m reading own = ground arith
  move-owner t x m taking own = ground arith
  move-owner t x m looking own = λ h. own refl
  move-owner t x m (storing a) own = own
  move-owner t x m (releasing o) own = λ h. cc
  move-owner t x m waiting own = ground arith
  move-owner t x m unlocked own = ground arith
  move-owner t x m (storing_unlocked a) own = λ h. cc
  move-owner t x m (finished o) own = λ h. cc
  move-owner t x m gone own = λ h. cc

  -- A lock with another token is left alone.
  move-other :
      (t u : String) (x : Answer E A) (m : Server A) (p : Pc E A)
      → t ≢ u
      → m.lock ≡ some u
      → (move on_timeout timeout t x m p).0.lock ≡ some u
  unfolding move is_own
  move-other t u x m reading differ theirs = theirs
  move-other t u x m taking differ theirs = ground arith
  move-other t u x m looking differ theirs = theirs
  move-other t u x m (storing a) differ theirs = theirs
  move-other t u x m (releasing o) differ theirs = ground (arith, eq_iff u t)
  move-other t u x m waiting differ theirs = theirs
  move-other t u x m unlocked differ theirs = theirs
  move-other t u x m (storing_unlocked a) differ theirs = theirs
  move-other t u x m (finished o) differ theirs = theirs
  move-other t u x m gone differ theirs = theirs

  Step-Owned : {s u : System E A} → Step on_timeout timeout token s u → Owned s → Owned u
  unfolding turn
  Step-Owned {s} (pick i x) own j in_j = elim (Bool-cases (eqb i j)) [
    | inl same ↦
        let one : i ≡ j = ground arith in
        let moved = move-owner (token i) x s.server (s.pc i) (own i) in
        rw (ap token (sym one)) (moved (rw same at in_j))
    | inr differ ↦
        move-other (token i) (token j) x s.server (s.pc i)
          (λ h. let one = unique i j h in ground arith) (own j (rw differ at in_j))
  ]
  Step-Owned {s} (dies i) own j in_j = elim (Bool-cases (eqb i j)) [
    | inl same ↦ cc (rw same at in_j)
    | inr differ ↦ own j (rw differ at in_j)
  ]
  Step-Owned value_gone own j in_j = own j in_j
  Step-Owned (lock_gone safe) own j in_j = cc (safe j (own j in_j), in_j)

  Reach-Owned : {s u : System E A} → Reach on_timeout timeout token s u → Owned s → Owned u
  Reach-Owned here own = own
  Reach-Owned (later r st) own = Step-Owned st (Reach-Owned r own)

  -- However the commands of the callers interleave, with replies lost, processes dying and values
  -- expiring at any time, two callers are never at once between taking the key's lock and releasing
  -- it, if their tokens differ and a lock does not expire under its holder.
  pub one_lookup_at_a_time :
      (value : Option A) {s : System E A}
      → Reach on_timeout timeout token (start value) s
      → (i j : ℕ) → critical (s.pc i) ≡ true
      → critical (s.pc j) ≡ true
      → i ≡ j
  one_lookup_at_a_time value {s} r i j in_i in_j =
      let own = Reach-Owned r (λ k h. cc) in
      let mine = own i in_i in let theirs = own j in_j in unique i j (ground arith)
