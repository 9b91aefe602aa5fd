-- ===== src/RateLimit/History/Theorems.antt =====
-- What holds after any number of requests.
use redfx.Common.{
  ℕ, suc, ◌+◌, ◌-◌, ◌*◌, ◌/◌, ◌%◌, ◌≤◌, ◌<◌, String, ◌≡◌, arith, ltb, eqb, if◌then◌else◌,
  Bool-cases, inl, inr, ap, none, some, [], ◌∷◌, Option-cases,
}
use redfx.RateLimit.Server.{CounterServer}
use redfx.RateLimit.{bucket_key, admit}
use redfx.RateLimit.Window.{counter, estimate, sliding_step, now-admit}
use redfx.RateLimit.History.{
  occurrences, System, Elapses, Step, request, wait, Reach, here, next, IsSound, after_request,
}
use redfx.RateLimit.History.Admission.{current, bucket, after, counter-after, deadline_after}

module _ (server : CounterServer) (key : String) (w max : ℕ) (positive : 1 ≤ w) where
  open server use {State, now, get, deadline}

  abbrev S : Type 0
  S = System server key w max

  abbrev Good : S → Type 0
  Good = IsSound server key w max

  not_before_its_time :
      {a : S} (t : State)
      → Good a
      → Elapses server key w max a.state t
      → (j d : ℕ) → deadline (bucket_key key j) a.state ≡ some d
      → d ≤ now t
      → now t < (j + 2) * w
      → 0 ≡ occurrences j a.admitted
  unfolding counter
  not_before_its_time {a} t g e j d at passed h =
      elim (Option-cases (get (bucket_key key j) a.state)) [
        | inl absent ↦ rw absent at (g.recorded j (omega (arith, e.later)))
        | inr (n, present) ↦
            let (d', at', far) = g.timed j n present in
            let same : d ≡ d' = cc (at, at') in absurd (omega arith)
      ]

  Elapses-IsSound :
      {a b : S}
      → Good a
      → Elapses server key w max a.state b.state
      → b.admitted ≡ a.admitted
      → Good b
  unfolding counter
  Elapses-IsSound {a} {b} g e same = record {
    started = omega (arith, g.started, e.later);
    bounded = λ j. rw same (g.bounded j);
    recorded = λ j h. elim (e.kept j) [
      | inl (kept, _) ↦ rw (same, kept) (g.recorded j (omega (arith, e.later)))
      | inr (gone, (d, at, passed)) ↦
          rw (same, gone) (not_before_its_time b.state g e j d at passed h)
    ];
    timed = λ j n h. elim (e.kept j) [
      | inl (kept, due) ↦ rw due (g.timed j n (rw kept at h))
      | inr (gone, _) ↦ cc (gone, h)
    ];
  }

  soon : (w' n q : ℕ) → 1 ≤ w' → n / w' ≡ q → n < (q + 2) * w'
  soon w' n q p h = grind arith

  admission_bound : (w' m x c : ℕ) → 1 ≤ w' → x + c * w' + w' ≤ m * w' → suc c ≤ m
  admission_bound w' m x c p h = grind arith

  module _ (a : S) (g : Good a) where
    cur : ℕ
    cur = current server key w max positive a g

    weighted : ℕ
    weighted = counter server key w max cur a.state * (w - now a.state % w)

    in_bucket : now a.state / w ≡ suc cur
    unfolding cur
    in_bucket = bucket server key w max positive a g

    room_for :
        estimate server key w max cur (now a.state % w) a.state + w ≤ max * w
        → suc (occurrences (suc cur) a.admitted) ≤ max
    unfolding estimate
    room_for fits =
        rw (← g.recorded (suc cur) (soon w (now a.state) (suc cur) positive in_bucket))
          (admission_bound w max _ (counter server key w max (suc cur) a.state) positive fits)

    Good-admitted :
        estimate server key w max cur (now a.state % w) a.state + w ≤ max * w
        → Good (record {
          state = after server key w max positive a g weighted;
          admitted = (now a.state / w) ∷ a.admitted;
        })
    unfolding occurrences cur
    Good-admitted fits = record {
      started =
          rw (now-admit server (bucket_key key (suc cur)) w weighted max a.state positive)
            g.started;
      bounded = λ j. elim (Bool-cases (eqb (suc cur) j)) [
        | inl same ↦
            let e : suc cur ≡ j = ground arith in
            rw (in_bucket, same)
              (omega (arith, room_for fits, ap (λ (i : ℕ). occurrences i a.admitted) e))
        | inr other ↦ rw (in_bucket, other) (omega (arith, g.bounded j))
      ];
      recorded = λ j h.
          rw (in_bucket, counter-after server key w max positive a g weighted j)
            (ap (λ (n : ℕ). (if eqb (suc cur) j then 1 else 0) + n)
              (g.recorded j (
                rw (now-admit server (bucket_key key (suc cur)) w weighted max a.state positive) at
                  h)));
      timed = deadline_after server key w max positive a g weighted;
    }

    Good-after : Good (after_request server key w max a)
    unfolding after_request admit weighted cur
    Good-after =
        elim (Bool-cases
          (ltb (max * w) (estimate server key w max cur (now a.state % w) a.state + w))) [
            | inl full ↦
                rw
                  (
                    sliding_step server key w max cur a.state
                        (bucket server key w max positive a g),
                    full,
                  )
                  g
            | inr fits ↦
                rw
                  (
                    sliding_step server key w max cur a.state
                        (bucket server key w max positive a g),
                    fits,
                  )
                  (Good-admitted (ground arith))
          ]

  Step-IsSound : {a b : S} → Good a → Step server key w max a b → Good b
  Step-IsSound {a} g (request e) = rw e (Good-after a g)
  Step-IsSound g (wait e same) = Elapses-IsSound g e same

  Reach-IsSound : {a b : S} → Good a → Reach server key w max a b → Good b
  Reach-IsSound g here = g
  Reach-IsSound g (next r st) = Step-IsSound (Reach-IsSound g r) st

  module _ (s : State) (fresh : (j : ℕ) → get (bucket_key key j) s ≡ none) (started : w ≤ now s)
      {b : S} (run : Reach server key w max (record { state = s; admitted = [] }) b) where
    sound : Good b
    unfolding occurrences counter
    sound =
        Reach-IsSound
          (record {
            started = started;
            bounded = λ j. omega arith;
            recorded = λ j h. rw (fresh j);
            timed = λ j n h. cc (fresh j, h);
          })
          run

    -- From a server without counters of this key, with a clock behind its first window, whatever
    -- requests come and whatever time passes between them, no bucket ever admits more than the limit.
    pub admissions_bounded : (j : ℕ) → occurrences j b.admitted ≤ max
    admissions_bounded = sound.bounded

    -- From such a server, the counter of a bucket is the number of requests admitted in it, until the bucket behind it
    -- is over: the server does not expire a counter while the script still weighs it.
    pub counters_are_history :
        (j : ℕ)
        → now b.state < (j + 2) * w
        → counter server key w max j b.state ≡ occurrences j b.admitted
    counters_are_history = sound.recorded

    -- From such a server, every counter of the key that it holds has a deadline, no earlier than the
    -- end of the bucket behind the counter's own, so none is stranded without a TTL.
    pub counters_expire :
        (j n : ℕ)
        → get (bucket_key key j) b.state ≡ some n
        → (d : ℕ) × (deadline (bucket_key key j) b.state ≡ some d) × ((j + 2) * w ≤ d)
    counters_expire = sound.timed
