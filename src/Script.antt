-- ===== src/Script.antt =====
-- `Redis.script` of packages/core/src/Redis.ts: a Lua script run by its SHA, loaded on demand.
pub mod Laws
mod Tests
use redfx.Common.{
  ℕ, String, Bool, true, false, ◌||◌, List, [], ◌∷◌, ◌++◌, Option, none, some, ◌==◌, if◌then◌else◌,
}
use redfx.Js.Text.{show, includes}
use redfx.Resp.{RespValue}
use redfx.RedisError.{RedisError, connection_error, command_error, decode_error, timeout_error}
use redfx.Effect.{Exit, succeed, fail, die, map_error}
use redfx.Run.{Effect, pure, lift, decoded, catch_if, ◌>>=◌, ◌>>◌}
use redfx.RedisCommand.{Arg, text, text_args, RedisCommand, make, command}
use redfx.Decode.{decode_string}
use redfx.Common.{length}

-- `e.code === "NOSCRIPT" || e.message.includes("NOSCRIPT")` of a CommandError.
is_code : String → Option String → Bool
is_code code none = false
is_code code (some c) = c == code

unfoldable pub is_command_error_with : String → RedisError → Bool
unfolding is_code
is_command_error_with code (command_error message _ c) = is_code code c || includes message code
is_command_error_with code _ = false

unfoldable pub is_no_script : RedisError → Bool
unfolding is_command_error_with
is_no_script e = is_command_error_with "NOSCRIPT" e

-- The closure's `cachedSha` beside the state of the outside.
pub record Cached (W : Type 0) : Type 0 where
  pub cached_sha : Option String
  pub outside : W

abbrev pub in_outside : {W E A : Type 0} → Effect W E A → Effect (Cached W) E A
in_outside m s = let (r, w) = m s.outside in (r, record { cached_sha = s.cached_sha; outside = w })

abbrev pub write_sha : {W E : Type 0} → Option String → Effect (Cached W) E (Unit {0})
write_sha sha s = (succeed tt, record s { cached_sha = sha })

-- `call` is the service's `call`; `decode_result` decodes with the schema of the result.
module _ {W A : Type 0} (call : String → List Arg → Effect W RedisError RespValue) (lua : String)
    (decode_result : RespValue → Exit RedisError A) where
  unfoldable pub load : Effect (Cached W) RedisError String
  load = do
    reply ← in_outside (call "SCRIPT" (text "LOAD" ∷ text lua ∷ []))
    sha ← decoded (decode_string reply)
    write_sha (some sha)
    pure sha

  unfoldable pub eval_sha : List String → String → Effect (Cached W) RedisError RespValue
  eval_sha tail sha = in_outside (call "EVALSHA" (text sha ∷ text_args tail))

  unfoldable pub ensure : Effect (Cached W) RedisError String
  ensure s = elim s.cached_sha [ some sha ↦ pure sha s | none ↦ load s ]

  unfoldable pub reload : List String → Effect (Cached W) RedisError RespValue
  reload tail = do write_sha none; sha ← load; eval_sha tail sha

  -- The arguments are texts already: `args.map(String)`.
  unfoldable pub script : List String → List String → Effect (Cached W) RedisError A
  script keys args =
      let tail = show (length keys) ∷ (keys ++ args) in
      do
        reply ← catch_if is_no_script (λ _. reload tail) (ensure >>= eval_sha tail)
        lift (decode_result reply)
