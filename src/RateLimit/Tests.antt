-- ===== src/RateLimit/Tests.antt =====
-- The theorems about the rate limiter at concrete inputs, and runs of it.
use redfx.Common.{ℕ, suc, ◌+◌, ◌-◌, ◌*◌, ◌%◌, ◌≤◌, ◌<◌, ◌⊎◌, ◌≡◌, refl, [], none, some, arith}
use redfx.Js.Text.{show}
use redfx.RateLimit.Server.{Memory, memory}
use redfx.RateLimit.{sliding_window, bucket_key}
use redfx.RateLimit.Window.{counter, estimate, sliding_window_admits, sliding_window_reports}
use redfx.RateLimit.History.{System, Reach, here, next, request, after_request, occurrences}
use redfx.RateLimit.History.Theorems.{admissions_bounded, counters_are_history, counters_expire}

abbrev start : Memory
start = record { clock = 104; counters = λ k. none; deadlines = λ k. none }

abbrev once : System memory "rl:ann" 10 2
once = after_request memory "rl:ann" 10 2 (record { state = start; admitted = [] })

abbrev twice : System memory "rl:ann" 10 2
twice = after_request memory "rl:ann" 10 2 once

abbrev two_requests : Reach memory "rl:ann" 10 2 (record { state = start; admitted = [] }) twice
two_requests = next (next here (request refl)) (request refl)

sliding_window_admits_example :
    ((sliding_window memory "rl:ann" 10 2 start).0.0 ≡ 1)
      × (estimate memory "rl:ann" 10 2 9 (104 % 10) start + 10 ≤ 2 * 10)
      × (counter memory "rl:ann" 10 2 10 (sliding_window memory "rl:ann" 10 2 start).1
          ≡ suc (counter memory "rl:ann" 10 2 10 start))
      × (counter memory "rl:ann" 10 2 9 (sliding_window memory "rl:ann" 10 2 start).1
          ≡ counter memory "rl:ann" 10 2 9 start)
    ⊎ ((sliding_window memory "rl:ann" 10 2 start).0.0 ≡ 0)
      × (2 * 10 < estimate memory "rl:ann" 10 2 9 (104 % 10) start + 10)
      × ((sliding_window memory "rl:ann" 10 2 start).1 ≡ start)
sliding_window_admits_example =
    sliding_window_admits memory "rl:ann" 10 2 9 start (omega arith) refl

admissions_bounded_example : occurrences 10 twice.admitted ≤ 2
admissions_bounded_example =
    admissions_bounded memory "rl:ann" 10 2 (omega arith) start (λ j. refl) (omega arith)
      two_requests 10

counters_are_history_example :
    counter memory "rl:ann" 10 2 10 twice.state ≡ occurrences 10 twice.admitted
unfolding after_request sliding_window show
counters_are_history_example =
    counters_are_history memory "rl:ann" 10 2 (omega arith) start (λ j. refl) (omega arith)
      two_requests 10 (omega arith)

counters_expire_example :
    (d : ℕ) × (memory.deadline (bucket_key "rl:ann" 10) twice.state ≡ some d) × ((10 + 2) * 10 ≤ d)
unfolding after_request sliding_window show
counters_expire_example =
    counters_expire memory "rl:ann" 10 2 (omega arith) start (λ j. refl) (omega arith) two_requests
      10 2 refl

sliding_window_reports_example :
    let run = sliding_window memory "rl:ann" 10 2 start in
    (run.0.2 ≡ 10 - 104 % 10)
    × (1 ≤ run.0.2)
    × (run.0.2 ≤ 10)
    × ((run.0.0 ≡ 0) × (run.0.1 ≡ 0)
        ⊎ (run.0.1 * 10 + estimate memory "rl:ann" 10 2 9 (104 % 10) run.1 ≤ 2 * 10)
          × (2 * 10 < suc run.0.1 * 10 + estimate memory "rl:ann" 10 2 9 (104 % 10) run.1))
sliding_window_reports_example =
    sliding_window_reports memory "rl:ann" 10 2 9 start (omega arith) refl

-- The third request of a bucket is refused.
third_is_refused :
    ((sliding_window memory "rl:ann" 10 2 start).0 ≡ (1, 1, 6))
    × ((sliding_window memory "rl:ann" 10 2 once.state).0 ≡ (1, 0, 6))
    × ((sliding_window memory "rl:ann" 10 2 twice.state).0 ≡ (0, 0, 6))
unfolding after_request sliding_window show
third_is_refused = (refl, refl, refl)
