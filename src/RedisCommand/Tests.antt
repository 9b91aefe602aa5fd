-- ===== src/RedisCommand/Tests.antt =====
-- The theorem about expiries at a concrete duration: 1500 milliseconds.
use redfx.Common.{ℕ, ◌≡◌, refl, ◌^◌}
use redfx.Js.Number.{of_ℕ, number_text}
use redfx.Durations.Whole.{whole}
use redfx.RedisCommand.{expiry_seconds}
use redfx.RedisCommand.Expiry.{Covers, expiry_seconds-Covers}

expiry_seconds-Covers_example :
    (n : ℕ) × (expiry_seconds whole 1500 ≡ number_text (of_ℕ n)) × Covers n (10 ^ 3) 1500
expiry_seconds-Covers_example = expiry_seconds-Covers whole 1500 1500 0 refl
