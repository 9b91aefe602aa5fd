-- ===== src/Adapter/Cause.antt =====
-- What a client rejects with, as `mapError` looks at it.
use redfx.Common.{String, Bool, false, ◌||◌, List, [], ◌∷◌, Option, none, some, if◌then◌else◌}
use redfx.Js.Text.{has, includes, to_lower_case, first_word}
use redfx.RedisError.{RedisError, connection_error, command_error}
use redfx.Effect.{Exit, succeed, fail, die}
use redfx.Run.{Effect}
use redfx.Cmd.Streams.{or_else}

-- `{ code?, message?, name? }`, and what `String(cause)` prints.
pub record Cause : Type 0 where
  pub code : Option String
  pub message : Option String
  pub name : Option String
  pub printed : String

unfoldable pub message_of : Cause → String
message_of cause = or_else cause.message cause.printed

-- `code !== undefined && codes.has(code)`
unfoldable pub has_code : List String → Option String → Bool
has_code codes none = false
has_code codes (some c) = has codes c

-- `/a|b|…/i.test(message)` of a regular expression of words in lower case
unfoldable pub mentions : List String → String → Bool
mentions [] message = false
mentions (w ∷ ws) message = includes (to_lower_case message) w || mentions ws message

-- The two answers of `mapError`.
unfoldable pub error_of : Bool → String → Cause → RedisError
unfolding message_of
error_of connection command cause =
    if connection
    then connection_error (message_of cause)
    else command_error (message_of cause) (some command)
        (some (or_else cause.code (first_word (message_of cause))))

-- A promise of a client: what it resolves to, or what it rejects with.
abbrev pub Promised : Type 0 → Type 0 → Type 0
Promised W A = W → Exit Cause A × W

abbrev pub settled : {A : Type 0} → (Cause → RedisError) → Exit Cause A → Exit RedisError A
settled catch (succeed a) = succeed a
settled catch (fail cause) = fail (catch cause)
settled catch (die d) = die d

-- `Effect.tryPromise`
abbrev pub try_promise :
    {W A : Type 0} → (Cause → RedisError) → Promised W A → Effect W RedisError A
try_promise catch promise w = let (result, w') = promise w in (settled catch result, w')
