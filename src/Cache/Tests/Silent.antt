-- ===== src/Cache/Tests/Silent.antt =====
-- A server that answers null to every command.
use redfx.Common.{ℕ, suc, ◌≤◌, ◌<◌, ◌≡◌, refl, String, [], none, some, arith}
use redfx.Js.Number.{of_ℕ}
use redfx.Durations.Whole.{whole}
use redfx.Resp.{null}
use redfx.Effect.{Exit, succeed}
use redfx.Connection.{ConnectionService}
use redfx.Redis.Service.{RedisService}
use redfx.Redis.Make.{make_redis}
use redfx.Ref.{Codec}
use redfx.Script.{Cached}
use redfx.Cache.Options.{CacheError, CacheOptions, Runtime, ResolvedStampede, defaults, compute}
use redfx.Cache.Core.{
  stampede_get, now, sleep, try_round, under_lock, acquire_lock, lock_reply, use_lock, drop_lock,
  released,
}
use redfx.Redis.Keys
use redfx.Ref.Value
use redfx.Ref.{to_decode_error}
use redfx.RedisCommand.{command, make}
use redfx.Decode.{decode_option_string}
use redfx.Cache.Waiting.{stampede_get-Ends}

abbrev silent_connection : (W : Type 0) → ConnectionService W
silent_connection W = record {
  send = λ c w. (succeed null, w);
  pipeline = λ cs w. (succeed [], w);
  close = λ w. (succeed tt, w);
}

abbrev silent : (W : Type 0) → RedisService W whole
silent W = make_redis whole (silent_connection W)

abbrev texts : Codec String
texts = record { encode = λ s. succeed s; decode = λ s. succeed s }

-- The outside is the clock.
abbrev clock : Runtime ℕ
clock = record {
  random_uuid = λ w. ("token", w);
  current_time_millis = λ w. w;
  jitter_sleep = λ n w. suc w;
  number_result = λ v. succeed (of_ℕ 0);
}

abbrev words : CacheOptions ℕ ℕ String String
words = record {
  schema = texts;
  prefix = "words";
  ttl = 5000;
  lookup = λ key w. (succeed "found", w);
  stampede = defaults;
}

abbrev brief : ResolvedStampede ℕ
brief = record { lock_ttl = 10; wait_timeout = 3; poll_interval = 1; on_timeout = compute }

abbrev at_seven : Cached ℕ
at_seven = record { cached_sha = none; outside = 7 }

round_takes_no_time :
    (key token : String) (s : Cached ℕ)
    → now (silent ℕ) clock words s
      ≤ now (silent ℕ) clock words (try_round (silent ℕ) clock words key brief token s).1
unfolding try_round make_redis Keys.get Keys.call Keys.ask Value.get under_lock acquire_lock
    lock_reply use_lock drop_lock released decode_option_string command make to_decode_error
round_takes_no_time key token s = omega arith

sleep_takes_time :
    (s : Cached ℕ)
    → now (silent ℕ) clock words s
      < now (silent ℕ) clock words (sleep (silent ℕ) clock words brief s)
sleep_takes_time s = omega arith

stampede_get-Ends_example :
    (result : Exit (CacheError String) String × Cached ℕ) × (stampede_get
        (silent ℕ)
        clock
        words
        4
        "w"
        brief
        at_seven
      ≡ some result)
stampede_get-Ends_example =
    stampede_get-Ends (silent ℕ) clock words brief round_takes_no_time sleep_takes_time 3 "w"
      at_seven refl
