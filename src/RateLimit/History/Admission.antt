-- ===== src/RateLimit/History/Admission.antt =====
-- One admission keeps the counters and deadlines in line with the history.
use redfx.Common.{
  ℕ, suc, ◌+◌, ◌-◌, ◌*◌, ◌/◌, ◌≤◌, String, ◌≡◌, Bool, false, ◌&&◌, arith, eqb, ◌==◌, eq_iff,
  if◌then◌else◌, Bool-cases, inl, inr, ap, some, Option-cases,
}
use redfx.RateLimit.Server.{CounterServer}
use redfx.RateLimit.{bucket_key, admit}
use redfx.RateLimit.Window.{counter, bucket_key_injective, get-admit, deadline-admit}
use redfx.RateLimit.History.{System, IsSound}

one_le_div : (w n : ℕ) → 1 ≤ w → w ≤ n → 1 ≤ n / w
one_le_div w n p h = grind arith

div_mul_le : (w n q : ℕ) → 1 ≤ w → n / w ≡ q → q * w ≤ n
div_mul_le w n q p h = grind arith

same_bucket_key : (key : String) (i j : ℕ) → (bucket_key key i == bucket_key key j) ≡ eqb i j
same_bucket_key key i j = elim (Bool-cases (bucket_key key i == bucket_key key j)) [
  | inl same ↦
      let e : i ≡ j = bucket_key_injective key i j ((eq_iff _ _).0 same) in rw same (ground arith)
  | inr other ↦ elim (Bool-cases (eqb i j)) [
    | inl same ↦
        let e : i ≡ j = ground arith in
        cc ((eq_iff (bucket_key key i) (bucket_key key j)).1 (ap (bucket_key key) e))
    | inr differ ↦ rw (other, differ)
  ]
]

module _ (server : CounterServer) (key : String) (w max : ℕ) where
  open server use {State, now, get, deadline}

  module _ (positive : 1 ≤ w) (a : System server key w max)
      (sound : IsSound server key w max a) where
    pub current : ℕ
    current = now a.state / w - 1

    pub bucket : now a.state / w ≡ suc current
    unfolding current
    bucket =
        let p : 1 ≤ now a.state / w = one_le_div w (now a.state) positive sound.started in
        omega arith

    far : (j : ℕ) → suc current ≡ j → (j + 2) * w ≤ now a.state + w * 2
    far j e =
        let m = div_mul_le w (now a.state) (suc current) positive bucket in rw (← e) (omega arith)

    module _ (weighted : ℕ) where
      abbrev pub after : State
      after = (admit server (bucket_key key (suc current)) w weighted max a.state).1

      same_key : (j : ℕ) → (bucket_key key (suc current) == bucket_key key j) ≡ eqb (suc current) j
      same_key j = same_bucket_key key (suc current) j

      pub get_after :
          (j : ℕ)
          → get (bucket_key key j) after ≡ (
              if eqb (suc current) j
              then some (suc (counter server key w max (suc current) a.state))
              else get (bucket_key key j) a.state)
      unfolding counter
      get_after j = rw (
        get-admit server (bucket_key key (suc current)) w weighted max a.state positive
            (bucket_key key j),
        same_key j,
      )

      pub counter-after :
          (j : ℕ)
          → counter server key w max j after
            ≡ (if eqb (suc current) j then 1 else 0) + counter server key w max j a.state
      unfolding counter
      counter-after j = elim (Bool-cases (eqb (suc current) j)) [
        | inl same ↦
            let e : suc current ≡ j = ground arith in
            rw (get_after j, same) (omega (arith, ap (λ i. counter server key w max i a.state) e))
        | inr other ↦ rw (get_after j, other) (omega arith)
      ]

      is_first : ℕ → Bool
      is_first j = eqb (counter server key w max (suc current) a.state) 0 && eqb (suc current) j

      deadline_is :
          (j : ℕ)
          → deadline (bucket_key key j) after ≡ (
              if is_first j
              then some (now a.state + w * 2)
              else deadline (bucket_key key j) a.state)
      unfolding is_first counter
      deadline_is j = rw (
        deadline-admit server (bucket_key key (suc current)) w weighted max a.state positive
            (bucket_key key j),
        same_key j,
      )

      was_present :
          (j n : ℕ)
          → get (bucket_key key j) after ≡ some n
          → is_first j ≡ false
          → (m : ℕ) × (get (bucket_key key j) a.state ≡ some m)
      unfolding is_first
      was_present j n h first = elim (Option-cases (get (bucket_key key j) a.state)) [
        | inr present ↦ present
        | inl absent ↦ elim (Bool-cases (eqb (suc current) j)) [
          | inl same ↦
              let e : suc current ≡ j = ground arith in
              let empty : counter server key w max j a.state ≡ 0 = unfold counter in rw absent in
              ground (arith, ap (λ i. counter server key w max i a.state) e)
          | inr other ↦ cc (absent, rw (get_after j, other) at h)
        ]
      ]

      pub deadline_after :
          (j n : ℕ)
          → get (bucket_key key j) after ≡ some n
          → (d : ℕ) × (deadline (bucket_key key j) after ≡ some d) × ((j + 2) * w ≤ d)
      deadline_after j n h = elim (Bool-cases (is_first j)) [
        | inl first ↦ (
          now a.state + w * 2,
          (rw (deadline_is j, first)),
          far j (unfold is_first in ground arith),
        )
        | inr old ↦
            let (m, present) = was_present j n h old in
            let (d, at, reaches) = sound.timed j m present in
            (d, (rw (deadline_is j, old) at), reaches)
      ]
