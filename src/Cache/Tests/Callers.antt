-- ===== src/Cache/Tests/Callers.antt =====
-- The theorems about several callers of one key at concrete inputs: callers numbered from 0, whose
-- tokens are their numbers.
use redfx.Common.{ℕ, String, ◌≢◌, ◌≡◌, refl, false, Option, none, some, arith}
use redfx.Js.Text.{show}
use redfx.Js.Text.Show.{show_injective}
use redfx.Effect.{succeed}
use redfx.RedisError.{connection_error}
use redfx.Cache.Options.{CacheError, redis_error, give_up}
use redfx.Cache.Stampede.{
  works, looking, waiting, System, Answer, turn, move, pick, Reach, here, later, start,
}
use redfx.Cache.Stampede.Safety.{one_lookup_at_a_time}
use redfx.Cache.Stampede.SingleFlight.{
  now, still, Served, late_caller-Served, overtaken, overtaken_looks_up_twice,
}

abbrev timeout : CacheError String
timeout = redis_error (connection_error "timed out")

abbrev works_with : ℕ → Answer String ℕ
works_with n = record { reply = works; lookup = succeed n; timed_out = false }

abbrev acts : ℕ → System String ℕ → System String ℕ
acts i s = turn give_up timeout show i (works_with 5) s

-- Callers 0 and 1 both read a miss, 0 takes the lock and 1 is refused.
abbrev contended : System String ℕ
contended = acts 1 (acts 0 (acts 1 (acts 0 (start none))))

contended-Reach : Reach give_up timeout show (start none) contended
contended-Reach = later (later (later (later here (pick 0 _)) (pick 1 _)) (pick 0 _)) (pick 1 _)

contended_runs : (contended.pc 0 ≡ looking) × (contended.pc 1 ≡ waiting)
unfolding turn move
contended_runs = (refl, refl)

one_lookup_at_a_time_example : ◌≡◌ {A = ℕ} 0 0
unfolding turn move
one_lookup_at_a_time_example =
    one_lookup_at_a_time give_up timeout show show_injective none contended-Reach 0 0 refl refl

present : ◌≢◌ {A = Option ℕ} (some 5) none
present h = cc

late_caller-Served_example : Served give_up timeout show ((acts 1 (acts 0 (start (some 5)))).pc 1)
unfolding turn move
late_caller-Served_example =
    late_caller-Served give_up timeout show {s = start (some 5)} 1 present refl
      (still (still now (pick 0 (works_with 5)) present) (pick 1 (works_with 5)) present)

overtaken_looks_up_twice_example :
    let s = overtaken {A = ℕ} give_up timeout show 0 1 5 (start none) in
    Reach give_up timeout show (start none) s × (s.server.value ≡ some 5) × (s.lookups ≡ 2)
overtaken_looks_up_twice_example =
    overtaken_looks_up_twice give_up timeout show 0 1 5 (λ h. ground arith)
