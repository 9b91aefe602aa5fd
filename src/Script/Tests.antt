-- ===== src/Script/Tests.antt =====
-- A script on a server that counts its runs and may have lost it.
use redfx.Common.{
  ℕ, suc, ◌≡◌, refl, String, Bool, true, false, List, [], ◌∷◌, none, some, if◌then◌else◌, ◌==◌,
}
use redfx.Js.Number.{of_ℕ}
use redfx.Resp.{RespValue, str, num}
use redfx.RedisError.{RedisError, command_error}
use redfx.Effect.{Exit, succeed, fail}
use redfx.Run.{Effect}
use redfx.RedisCommand.{Arg}
use redfx.Script.{is_no_script, is_command_error_with, script}
use redfx.Script.Laws.{ScriptServer, done, tail_of, ready, script_runs_once}

record Store : Type 0 where
  kept : Bool
  runs : ℕ

abbrev missing : RedisError
missing = command_error "NOSCRIPT No matching script" none (some "NOSCRIPT")

abbrev count_run : Store → Exit RedisError RespValue × Store
count_run w = (succeed (num (of_ℕ (suc w.runs))), record w { runs = suc w.runs })

abbrev call : String → List Arg → Effect Store RedisError RespValue
call name args w =
    if name == "SCRIPT"
    then (succeed (str "sha"), record w { kept = true })
    else if w.kept
    then count_run w
    else (fail missing, w)

abbrev result_of : RespValue → Exit RedisError RespValue
result_of v = succeed v

counting : ScriptServer call "return 1"
unfolding is_no_script is_command_error_with
counting = record {
  sha = "sha";
  keeps = λ w. w.kept;
  loaded = λ w. record w { kept = true };
  run = λ tail w. count_run w;
  no_script = missing;
  is_no_script_lem = refl;
  load_lem = λ w. refl;
  keeps-loaded = λ w. refl;
  eval_kept = λ tail w kept. rw kept refl;
  eval_missing = λ tail w gone. rw gone refl;
  run_answers = λ tail w e failed. cc;
}

abbrev lost : Store
lost = record { kept = false; runs = 4 }

script_runs_once_example :
    script call "return 1" result_of
      ("k" ∷ [])
      ("7" ∷ [])
      (record { cached_sha = some "sha"; outside = lost })
    ≡ done call "return 1" result_of counting
        (tail_of call "return 1" result_of counting ("k" ∷ []) ("7" ∷ []))
        (ready call "return 1" result_of counting (some "sha") lost)
unfolding counting
script_runs_once_example =
    script_runs_once call "return 1" result_of counting ("k" ∷ []) ("7" ∷ []) (some "sha") lost refl
