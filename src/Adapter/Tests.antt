-- ===== src/Adapter/Tests.antt =====
-- The theorems about the adapters at concrete errors and replies.
use redfx.Common.{◌≡◌, String, List, [], ◌∷◌, ◌++◌, Option, none, some}
use redfx.Resp.{RespValue, str}
use redfx.Effect.{succeed, fail}
use redfx.RedisCommand.{Arg, RedisCommand, command}
use redfx.Adapter.Cause.{Cause, Promised}
use redfx.Adapter.IoRedis.{Results, map_error, pipeline}
use redfx.Adapter.Pipeline.{answered, batch, pipeline_answers}

abbrev no_script : Cause
no_script = record {
  code = none;
  message = some "NOSCRIPT No matching script";
  name = some "ReplyError";
  printed = "";
}

abbrev two_gets : List RedisCommand
two_gets = command "GET" ("a" ∷ []) ∷ command "GET" ("b" ∷ []) ∷ []

abbrev one_send : String → List Arg → Promised String RespValue
one_send name args w = (succeed (str name), w)

-- The second command fails.
abbrev half : List (String × List Arg) → Promised String Results
half batch w = (succeed (some ((none, str "x") ∷ (some no_script, str "") ∷ [])), w)

pipeline_answers_example :
    (half (batch one_send half two_gets) "w" ≡ (succeed (some (answered (str "x" ∷ []))), "w")
      → pipeline one_send half two_gets "w" ≡ (succeed (str "x" ∷ []), "w"))
    × ((cause : Cause) (v : RespValue) (rest : List (Option Cause × RespValue))
        → half (batch one_send half two_gets) "w"
          ≡ (succeed (some (answered (str "x" ∷ []) ++ (some cause, v) ∷ rest)), "w")
        → pipeline one_send half two_gets "w" ≡ (fail (map_error "PIPELINE" cause), "w"))
pipeline_answers_example = pipeline_answers one_send half two_gets (str "x" ∷ []) "w" "w"
