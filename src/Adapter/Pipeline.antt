-- ===== src/Adapter/Pipeline.antt =====
-- What a pipeline of the ioredis adapter answers.
use redfx.Common.{String, ◌≡◌, refl, ap, List, [], ◌∷◌, ◌++◌, map, Option, none, some}
use redfx.Resp.{RespValue}
use redfx.Effect.{succeed, fail}
use redfx.RedisCommand.{Arg, RedisCommand}
use redfx.Adapter.Cause.{Cause, Promised}
use redfx.Js.Text.{to_lower_case}
use redfx.Adapter.IoRedis.{Results, map_error, find_failed, settle, found, pipeline}

-- Commands that were all answered, with their replies.
abbrev pub answered : List RespValue → List (Option Cause × RespValue)
answered vs = map (λ v. let r : Option Cause × RespValue = (none, v) in r) vs

find_failed-answered :
    (vs : List RespValue) (rest : List (Option Cause × RespValue))
    → find_failed (answered vs ++ rest) ≡ find_failed rest
unfolding find_failed
find_failed-answered [] rest = refl
find_failed-answered (v ∷ vs) rest = find_failed-answered vs rest

all-answered : (vs : List RespValue) → find_failed (answered vs) ≡ none
unfolding find_failed
all-answered [] = refl
all-answered (v ∷ vs) = all-answered vs

values-answered :
    (vs : List RespValue) → map (λ (r : Option Cause × RespValue). r.1) (answered vs) ≡ vs
values-answered [] = refl
values-answered (v ∷ vs) = ap (λ r. v ∷ r) (values-answered vs)

module _ {W : Type 0} (send_command : String → List Arg → Promised W RespValue)
    (exec : List (String × List Arg) → Promised W Results) where
  abbrev pub batch : List RedisCommand → List (String × List Arg)
  batch commands = map (λ (c : RedisCommand). (to_lower_case c.name, c.args)) commands

  -- A pipeline of which every command was answered returns the replies in the order of the commands;
  -- one of which a command failed fails with the error of the first that did, and returns none of the
  -- replies.
  pub pipeline_answers :
      (commands : List RedisCommand) (vs : List RespValue) (w w' : W)
      → (exec (batch commands) w ≡ (succeed (some (answered vs)), w')
          → pipeline send_command exec commands w ≡ (succeed vs, w'))
        × ((cause : Cause) (v : RespValue) (rest : List (Option Cause × RespValue))
            → exec (batch commands) w ≡ (succeed (some (answered vs ++ (some cause, v) ∷ rest)), w')
            → pipeline send_command exec commands w ≡ (fail (map_error "PIPELINE" cause), w'))
  unfolding pipeline settle found
  pipeline_answers commands vs w w' = (
    λ resolved. rw (resolved, all-answered vs, values-answered vs) refl,
    λ cause v rest resolved.
        rw (resolved, find_failed-answered vs ((some cause, v) ∷ rest), find_failed) refl,
  )
