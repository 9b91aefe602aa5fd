-- ===== src/Durations/Whole.antt =====
-- Durations of whole milliseconds, which keep the laws of the interface.
use redfx.Common.{ℕ, ◌*◌, ◌/◌, ◌^◌, refl}
use redfx.Js.Number.{pos, Number, decimal, of_ℕ, thousandth}
use redfx.Durations.{Durations}

abbrev of_seconds : Number → ℕ
of_seconds (decimal (pos n) s) = 1000 * n
of_seconds _ = 0

abbrev of_millis : Number → ℕ
of_millis (decimal (pos n) s) = n / 10 ^ s
of_millis _ = 0

abbrev pub whole : Durations
whole = record {
  DurationInput = ℕ;
  Duration = ℕ;
  to_millis = of_ℕ;
  to_seconds = λ d. thousandth (of_ℕ d);
  seconds = of_seconds;
  millis = of_millis;
  of_duration = λ d. d;
  to_millis-ne-nan = λ d. refl;
  to_millis-nonneg = λ d. refl;
  to_seconds_lem = λ d. refl;
  to_millis-seconds = λ n. refl;
}
