-- ===== src/RateLimit.antt =====
-- packages/core/src/RateLimit.ts: the sliding-window counter.
pub mod Server
pub mod Window
pub mod History
mod Tests
use redfx.Common.{
  ℕ, zero, suc, ◌+◌, ◌-◌, ◌*◌, ◌/◌, ◌%◌, String, Bool, Option, ltb, eqb, if◌then◌else◌,
}
use redfx.Js.Text.{◌<>◌, show}
use redfx.Js.Number.{Number, of_ℕ, ceil, max_of, thousandth}
use redfx.Durations.{Durations}
use redfx.Cmd.Streams.{or_else}
use redfx.RateLimit.Server.{CounterServer, count_of}

-- Of the bucket in front of bucket b: Lua prints `cur - 1`.
unfoldable pub previous : ℕ → String
previous zero = "-1"
previous (suc n) = show n

unfoldable pub bucket_key : String → ℕ → String
bucket_key key b = key <> ":" <> show b

-- The script, for a whole window w and a whole limit. Lua's numbers are floats: here the quotients
-- by w are exact, and each comparison is multiplied by w.
module _ (server : CounterServer) where
  open server use {State, now, get, incr, expire}

  unfoldable pub admit : String → ℕ → ℕ → ℕ → State → (ℕ × ℕ × ℕ) × State
  admit ck w weighted max s =
      let (n, s1) = incr ck s in
      let s2 = if eqb n 1 then expire ck (w * 2) s1 else s1 in
      ((1, (max * w - (weighted + n * w)) / w, w - now s % w), s2)

  unfoldable pub sliding_window : String → ℕ → ℕ → State → (ℕ × ℕ × ℕ) × State
  unfolding admit previous bucket_key
  sliding_window key w max s =
      let cur = now s / w in
      let elapsed = now s % w in
      let ck = bucket_key key cur in
      let pk = key <> ":" <> previous cur in
      let c = count_of (get ck s) in
      let p = count_of (get pk s) in
      let weighted = p * (w - elapsed) in
      if ltb (max * w) (weighted + c * w + w)
      then ((0, 0, w - elapsed), s)
      else admit ck w weighted max s

pub record RateLimitDecision (D : Type 0) : Type 0 where
  pub allowed : Bool
  pub remaining : Number
  pub reset_after : D
  pub limit : Number

module _ (durations : Durations) where
  open durations use {DurationInput, Duration, to_millis, seconds}

  unfoldable pub window_seconds : DurationInput → Number
  window_seconds w = max_of 1 (ceil (thousandth (to_millis w)))

  -- What `check` makes of the script's three numbers.
  unfoldable pub decision : ℕ → ℕ × ℕ × ℕ → RateLimitDecision Duration
  decision max (allowed, remaining, reset) = record {
    allowed = eqb allowed 1;
    remaining = of_ℕ remaining;
    reset_after = seconds (of_ℕ reset);
    limit = of_ℕ max;
  }

  module _ (server : CounterServer) where
    open server use {State}

    -- `check(identifier)` with the defaults of `make`, the window w being `windowSeconds`.
    unfoldable pub check :
        Option String → String → ℕ → ℕ → State → RateLimitDecision Duration × State
    unfolding sliding_window decision
    check prefix identifier w max s =
        let (result, s') =
          sliding_window server (or_else prefix "rl" <> ":" <> identifier) w max s in
        (decision max result, s')
