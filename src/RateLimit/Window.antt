-- ===== src/RateLimit/Window.antt =====
-- One run of the script: what it admits, what it changes, and what it reports.
use redfx.Common.{
  ℕ, suc, ◌+◌, ◌-◌, ◌*◌, ◌/◌, ◌%◌, ◌≤◌, ◌<◌, ◌⊎◌, String, ◌≡◌, refl, true, false, ◌&&◌, arith, ltb,
  eqb, ◌==◌, eq_iff, eq_refl, if◌then◌else◌, Bool-cases, inl, inr, ap, ◌∙◌, some,
}
use text.Mathlib.TextLemmas.{append_cancel_left}
use redfx.Js.Text.{◌<>◌, show}
use redfx.Js.Text.Show.{show_injective}
use redfx.RateLimit.Server.{CounterServer, count_of}
use redfx.RateLimit.{bucket_key, previous, admit, sliding_window}

pub bucket_key_injective : (key : String) (a b : ℕ) → bucket_key key a ≡ bucket_key key b → a ≡ b
unfolding bucket_key
bucket_key_injective key a b h = show_injective a b (
    append_cancel_left ":" (show a) (show b)
      (append_cancel_left key (":" <> show a) (":" <> show b) h))

room : (w m x : ℕ) → 1 ≤ w → x ≤ m → ((m - x) / w * w + x ≤ m) × (m < suc ((m - x) / w) * w + x)
room w m x positive h = grind arith

module _ (server : CounterServer) where
  open server use {
    State, now, get, deadline, incr, expire, incr_value, get-incr, deadline-incr, get-expire,
    deadline-expire, now-incr, now-expire,
  }

  module _ (ck : String) (w weighted max : ℕ) (s : State) (positive : 1 ≤ w) where
    abbrev after_admit : State
    after_admit = (admit server ck w weighted max s).1

    -- An admission counts one more in its own counter, and touches no other.
    pub get-admit :
        (j : String)
        → get j after_admit ≡ (if ck == j then some (suc (count_of (get ck s))) else get j s)
    unfolding admit
    get-admit j = elim (Bool-cases (eqb (incr ck s).0 1)) [
      | inl first ↦ rw first (get-expire ck j (w * 2) (incr ck s).1 (omega arith) ∙ get-incr ck j s)
      | inr later ↦ rw later (get-incr ck j s)
    ]

    pub now-admit : now after_admit ≡ now s
    unfolding admit
    now-admit = elim (Bool-cases (eqb (incr ck s).0 1)) [
      | inl first ↦ rw first (now-expire ck (w * 2) (incr ck s).1 ∙ now-incr ck s)
      | inr later ↦ rw later (now-incr ck s)
    ]

    -- The first admission of a counter sets its deadline, two windows ahead.
    pub deadline-admit :
        (j : String)
        → deadline j after_admit ≡ (
            if eqb (count_of (get ck s)) 0 && (ck == j) then some (now s + w * 2) else deadline j s)
    unfolding admit
    deadline-admit j = elim (Bool-cases (eqb (count_of (get ck s)) 0)) [
      | inl first ↦
          let one : eqb (incr ck s).0 1 ≡ true = ground (arith, incr_value ck s) in
          rw (one, first)
            (deadline-expire ck j (w * 2) (suc (count_of (get ck s))) (incr ck s).1
                (get-incr ck ck s ∙ (rw (eq_refl ck)))
              ∙ ground (arith, deadline-incr ck j s, now-incr ck s))
      | inr later ↦
          let many : eqb (incr ck s).0 1 ≡ false = ground (arith, incr_value ck s) in
          rw (many, later) (deadline-incr ck j s)
    ]

  module _ (key : String) (w max : ℕ) where
    -- The counter of a bucket.
    unfoldable pub counter : ℕ → State → ℕ
    counter b s = count_of (get (bucket_key key b) s)

    -- w times the estimate of the requests of the last window, in a state in bucket b + 1: the
    -- bucket in front counts for the share of it that the last window still covers.
    unfoldable pub estimate : ℕ → ℕ → State → ℕ
    estimate b elapsed s = counter b s * (w - elapsed) + counter (suc b) s * w

    pub sliding_step :
        (b : ℕ) (s : State)
        → now s / w ≡ suc b
        → sliding_window server key w max s ≡ (
            if ltb (max * w) (estimate b (now s % w) s + w)
            then ((0, 0, w - now s % w), s)
            else admit server (bucket_key key (suc b)) w (counter b s * (w - now s % w)) max s)
    unfolding sliding_window estimate counter bucket_key previous
    sliding_step b s e = rw e

    module _ (b : ℕ) (s : State) (positive : 1 ≤ w) (bucket : now s / w ≡ suc b) where
      abbrev run : (ℕ × ℕ × ℕ) × State
      run = sliding_window server key w max s

      other_bucket : (bucket_key key (suc b) == bucket_key key b) ≡ false
      other_bucket = elim (Bool-cases (bucket_key key (suc b) == bucket_key key b)) [
        | inl same ↦
            let e : suc b ≡ b = bucket_key_injective key (suc b) b ((eq_iff _ _).0 same) in
            absurd (omega arith)
        | inr other ↦ other
      ]

      counter_new :
          (weighted : ℕ)
          → counter (suc b) (admit server (bucket_key key (suc b)) w weighted max s).1
            ≡ suc (counter (suc b) s)
      unfolding counter
      counter_new weighted = rw (
        get-admit (bucket_key key (suc b)) w weighted max s positive (bucket_key key (suc b)),
        eq_refl,
      )

      admit_one : (weighted : ℕ) → (admit server (bucket_key key (suc b)) w weighted max s).0.0 ≡ 1
      unfolding admit
      admit_one weighted = refl

      counter_old :
          (weighted : ℕ)
          → counter b (admit server (bucket_key key (suc b)) w weighted max s).1 ≡ counter b s
      unfolding counter
      counter_old weighted = rw (
        get-admit (bucket_key key (suc b)) w weighted max s positive (bucket_key key b),
        other_bucket,
      )

      -- The script admits a request exactly when the estimate with this request fits the limit,
      -- and then counts it in the current bucket and leaves the bucket in front alone. A refused
      -- request changes nothing.
      pub sliding_window_admits :
          ((run.0.0 ≡ 1)
            × (estimate b (now s % w) s + w ≤ max * w)
            × (counter (suc b) run.1 ≡ suc (counter (suc b) s))
            × (counter b run.1 ≡ counter b s))
          ⊎ ((run.0.0 ≡ 0) × (max * w < estimate b (now s % w) s + w) × (run.1 ≡ s))
      sliding_window_admits = elim (Bool-cases (ltb (max * w) (estimate b (now s % w) s + w))) [
        | inl full ↦ rw (sliding_step b s bucket, full) (inr (refl, ground arith, refl))
        | inr fits ↦
            rw (sliding_step b s bucket, fits)
              (inl (admit_one _, ground arith, counter_new _, counter_old _))
      ]

      within_window : 1 ≤ w - now s % w
      within_window = grind arith

      abbrev admitted : (ℕ × ℕ × ℕ) × State
      admitted = admit server (bucket_key key (suc b)) w (counter b s * (w - now s % w)) max s

      reset_one :
          (weighted : ℕ)
          → (admit server (bucket_key key (suc b)) w weighted max s).0.2 ≡ w - now s % w
      unfolding admit
      reset_one weighted = refl

      estimate_new : estimate b (now s % w) admitted.1 ≡ estimate b (now s % w) s + w
      unfolding estimate
      estimate_new = rw (counter_old, counter_new) (omega arith)

      remaining_new : admitted.0.1 ≡ (max * w - (estimate b (now s % w) s + w)) / w
      unfolding admit estimate counter
      remaining_new =
          rw (incr_value (bucket_key key (suc b)) s)
            (ap (λ (t : ℕ). (max * w - t) / w) (omega arith))

      remaining_fits :
          estimate b (now s % w) s + w ≤ max * w
          → (admitted.0.1 * w + estimate b (now s % w) admitted.1 ≤ max * w)
            × (max * w < suc admitted.0.1 * w + estimate b (now s % w) admitted.1)
      remaining_fits fits = rw (remaining_new, estimate_new) (room w (max * w) _ positive fits)

      -- The script reports the seconds up to the end of the bucket, and the whole requests that the
      -- limit still has room for after this one: the greatest number that fits, or 0 if refused.
      pub sliding_window_reports :
          (run.0.2 ≡ w - now s % w)
          × (1 ≤ run.0.2)
          × (run.0.2 ≤ w)
          × ((run.0.0 ≡ 0) × (run.0.1 ≡ 0)
              ⊎ (run.0.1 * w + estimate b (now s % w) run.1 ≤ max * w)
                × (max * w < suc run.0.1 * w + estimate b (now s % w) run.1))
      sliding_window_reports = elim (Bool-cases (ltb (max * w) (estimate b (now s % w) s + w))) [
        | inl full ↦
            rw (sliding_step b s bucket, full)
              (refl, omega (arith, within_window), omega arith, inl (refl, refl))
        | inr fits ↦
            rw (sliding_step b s bucket, fits)
              (
                reset_one _,
                rw (reset_one _) within_window,
                rw (reset_one _) (omega arith),
                inr (remaining_fits (ground arith)),
              )
      ]
