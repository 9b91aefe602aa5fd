-- ===== src/Cache/Stampede/SingleFlight.antt =====
-- Which callers of a cache with stampede protection run the lookup.
use redfx.Common.{
  ℕ, ◌≢◌, ◌≡◌, inl, inr, refl, String, true, false, Option, none, some, eqb, arith, eq_refl,
  Bool-cases,
}
use redfx.Effect.{Exit, succeed}
use redfx.Cache.Options.{CacheError, OnTimeout}
use redfx.Cache.Stampede.{
  Server, Reply, works, lost, Pc, reading, gone, finished, Answer, is_own, move, System, turn, Step,
  pick, dies, value_gone, lock_gone, Reach, here, later, start, after_get,
}

module _ {E A : Type 0} (on_timeout : OnTimeout) (timeout : CacheError E) (token : ℕ → String) where
  -- Steps behind each of which the value is there.
  pub data Cached (s : System E A) : System E A → Type 0 where
    now : Cached s s
    still :
        {t u : System E A}
        → Cached s t
        → Step on_timeout timeout token t u
        → u.server.value ≢ none
        → Cached s u

  -- It has not begun a round, or has ended it with no lookup.
  pub data Served : Pc E A → Type 0 where
    not_begun : Served reading
    ended : (o : Exit (CacheError E) A) → Served (finished o)
    lost_process : Served gone

  after_get-Served : (rp : Reply) (v : Option A) → v ≢ none → Served (after_get rp v)
  unfolding after_get
  after_get-Served (lost e applied) v there = ended _
  after_get-Served works none there = absurd (there refl)
  after_get-Served works (some a) there = ended _

  move-Served :
      (t : String) (x : Answer E A) (m : Server A) (p : Pc E A)
      → m.value ≢ none
      → Served p
      → Served (move on_timeout timeout t x m p).1
  unfolding move
  move-Served t x m _ there not_begun = after_get-Served x.reply m.value there
  move-Served t x m _ there (ended o) = ended o
  move-Served t x m _ there lost_process = lost_process

  Step-Served :
      {s u : System E A} (j : ℕ)
      → s.server.value ≢ none
      → Step on_timeout timeout token s u
      → Served (s.pc j)
      → Served (u.pc j)
  unfolding turn
  Step-Served {s} j there (pick i x) served = elim (Bool-cases (eqb i j)) [
    | inl same ↦
        let one : i ≡ j = ground arith in
        rw same (move-Served (token i) x s.server (s.pc i) there (rw one served))
    | inr differ ↦ rw differ served
  ]
  Step-Served {s} j there (dies i) served = elim (Bool-cases (eqb i j)) [
    | inl same ↦ rw same lost_process
    | inr differ ↦ rw differ served
  ]
  Step-Served j there value_gone served = served
  Step-Served j there (lock_gone safe) served = served

  Cached-has : {s u : System E A} → s.server.value ≢ none → Cached s u → u.server.value ≢ none
  Cached-has there now = there
  Cached-has there (still run st kept) = kept

  -- A caller that has not begun its round when the value is stored never runs the lookup as long as
  -- the value stays, whatever the other callers do: at any later time it has not begun, its process
  -- is gone, or it has its outcome.
  pub late_caller-Served :
      {s u : System E A} (j : ℕ)
      → s.server.value ≢ none
      → s.pc j ≡ reading
      → Cached s u
      → Served (u.pc j)
  late_caller-Served j there first now = rw first not_begun
  late_caller-Served {s} j there first (still {t} run st kept) =
      Step-Served j (Cached-has there run) st (late_caller-Served j there first run)

  -- The answers of a server and a lookup that work.
  abbrev answer : A → Answer E A
  answer a = record { reply = works; lookup = succeed a; timed_out = false }

  abbrev go : A → ℕ → System E A → System E A
  go a k s = turn on_timeout timeout token k (answer a) s

  -- `i` reads, then `j` takes a whole round, then `i` takes one from its SET on.
  unfoldable pub overtaken : ℕ → ℕ → A → System E A → System E A
  overtaken i j a s = go a i (go a i (go a j (go a j (go a j (go a j (go a j (go a i s)))))))

  overtaken-Reach :
      (i j : ℕ) (a : A) (s : System E A) → Reach on_timeout timeout token s (overtaken i j a s)
  unfolding overtaken
  overtaken-Reach i j a s =
      later
        (later
          (later
            (later (later (later (later (later here (pick i _)) (pick j _)) (pick j _)) (pick j _))
              (pick j _))
            (pick j _))
          (pick i _))
        (pick i _)

  -- Two callers can run the lookup one behind the other although the value of the first is stored and
  -- no lock or value has expired: `i` reads before `j` stores, and takes the lock after `j` releases
  -- it, without reading again. With every reply a success, the run is one of the machine, the value
  -- of `j` is there before `i` has its lock, and the lookup is run twice.
  pub overtaken_looks_up_twice :
      (i j : ℕ) (a : A)
      → i ≢ j
      → let s = overtaken i j a (start none) in
        Reach on_timeout timeout token (start none) s × (s.server.value ≡ some a) × (s.lookups ≡ 2)
  unfolding overtaken turn move is_own
  overtaken_looks_up_twice i j a differ =
      let ii : eqb i i ≡ true = ground arith in
      let jj : eqb j j ≡ true = ground arith in
      let ij : eqb i j ≡ false = ground arith in
      let ji : eqb j i ≡ false = ground arith in
      let own = eq_refl (token j) in
      (overtaken-Reach i j a _, simp (ii, jj, ij, ji, own), simp (ii, jj, ij, ji, own))
