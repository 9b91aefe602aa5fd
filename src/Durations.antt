-- ===== src/Durations.antt =====
-- The durations of the effect library, which redfx takes in options and returns for a TTL.
pub mod Whole
use redfx.Common.{ℕ, ◌*◌, ◌≡◌, false}
use redfx.Js.Number.{Number, is_nan, is_negative, thousandth, of_ℕ}

pub record Durations : Type 1 where
  pub DurationInput : Type 0
  pub Duration : Type 0
  -- `Duration.toMillis(Duration.decode(d))` and `Duration.toSeconds(Duration.decode(d))`
  pub to_millis : DurationInput → Number
  pub to_seconds : DurationInput → Number
  -- `Duration.seconds(n)`, as a duration and as an input
  pub seconds : Number → Duration
  -- `Duration.millis(n)`
  pub millis : Number → Duration
  pub of_duration : Duration → DurationInput
  -- A duration is not negative and not NaN, and its seconds are its milliseconds over 1000.
  pub to_millis-ne-nan : (d : DurationInput) → is_nan (to_millis d) ≡ false
  pub to_millis-nonneg : (d : DurationInput) → is_negative (to_millis d) ≡ false
  pub to_seconds_lem : (d : DurationInput) → to_seconds d ≡ thousandth (to_millis d)
  -- A whole number of seconds lasts as many seconds.
  pub to_millis-seconds : (n : ℕ) → to_millis (of_duration (seconds (of_ℕ n))) ≡ of_ℕ (1000 * n)
