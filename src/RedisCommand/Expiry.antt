-- ===== src/RedisCommand/Expiry.antt =====
-- The expiries that SET EX and EXPIRE send.
use redfx.Common.{
  ℕ, zero, suc, ◌+◌, ◌-◌, ◌*◌, ◌^◌, ◌≤◌, ◌<◌, ◌≡◌, ◌⊎◌, inl, inr, refl, leb, if◌then◌else◌,
  Bool-cases, arith,
}
use redfx.Js.Number.{pos, decimal, of_ℕ, ceil, max_of, div_up, number_text}
use redfx.Durations.{Durations}
use redfx.RedisCommand.{expiry_seconds}

-- n whole units of u cover m, and n - 1 do not, unless n is 1.
abbrev pub Covers : ℕ → ℕ → ℕ → Type 0
Covers n u m = (1 ≤ n) × (m ≤ n * u) × ((n ≡ 1) ⊎ ((n - 1) * u < m))

floored : (q : ℕ) → max_of 1 (of_ℕ q) ≡ of_ℕ (if leb 1 q then q else 1)
unfolding max_of
floored q = elim (Bool-cases (leb 1 q)) [ inl enough ↦ rw enough refl | inr less ↦ rw less refl ]

div_up-Covers : (u m : ℕ) → 1 ≤ u → 1 ≤ div_up m u → Covers (div_up m u) u m
div_up-Covers u m positive enough = (enough, grind arith, inr (grind arith))

one-Covers : (u m : ℕ) → 1 ≤ u → div_up m u < 1 → Covers 1 u m
one-Covers u m positive less = (omega arith, grind arith, inl refl)

covers : (u m : ℕ) → 1 ≤ u → Covers (if leb 1 (div_up m u) then div_up m u else 1) u m
covers u m positive = elim (Bool-cases (leb 1 (div_up m u))) [
  | inl enough ↦ rw enough (div_up-Covers u m positive (ground arith))
  | inr less ↦ rw less (one-Covers u m positive (ground arith))
]

power_positive : (s : ℕ) → 1 ≤ 10 ^ s
power_positive zero = omega arith
power_positive (suc s) = let smaller = power_positive s in omega arith

-- The seconds of an expiry are 1 at least, cover the duration, and are the least that do: a key
-- never expires before its TTL, and lives less than a second longer, or one second if the TTL is less.
pub expiry_seconds-Covers :
    (durations : Durations) (d : durations.DurationInput) (m s : ℕ)
    → durations.to_millis d ≡ decimal (pos m) s
    → (n : ℕ) × (expiry_seconds durations d ≡ number_text (of_ℕ n)) × Covers n (10 ^ (s + 3)) m
unfolding expiry_seconds ceil
expiry_seconds-Covers durations d m s millis = (
  _,
  rw (durations.to_seconds_lem d, millis, floored) refl,
  covers (10 ^ (s + 3)) m (power_positive (s + 3)),
)
