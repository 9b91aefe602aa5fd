-- ===== src/Consumer.antt =====
-- The consumer streams of packages/core/src/Redis.ts (`streams.read`, `streams.readGroup`, the typed
-- ones on top of them, and `subscribe`): rounds of a blocking read on a dedicated connection, retried
-- when the connection is lost. The delays of the retry schedule are not modelled: it never gives up.
pub mod Server
pub mod Delivery
pub mod Rounds
pub mod Progress
pub mod Group
pub mod Handled
pub mod Acks
pub mod Typed
pub mod StreamRef
pub mod Subscribed
mod Tests
mod GroupTests
mod TypedTests
use redfx.Common.{
  ℕ, zero, suc, String, Bool, true, false, List, [], ◌∷◌, ◌++◌, Option, none, some, if◌then◌else◌,
  leb,
}
use redfx.Js.Number.{Number, of_ℕ, less}
use redfx.Durations.{Durations}
use redfx.Resp.{RespValue, null}
use redfx.RedisError.{RedisError, connection_error, command_error, decode_error, timeout_error}
use redfx.Effect.{Exit, succeed, fail, die}
use redfx.Run.{Effect, pure, decoded, as_void, catch_if, ◌>>=◌, ◌>>◌}
use redfx.RedisCommand.{RedisCommand, XReadArgs}
use redfx.Cmd.Streams as Cmd
use redfx.Cmd.Streams.{or_else}
use redfx.Decode.{RawStreamEntry, StreamRead, decode_stream_reads}
use redfx.Script.{is_command_error_with}

-- `reads.flatMap(([, es]) => es)`
unfoldable pub entries_of : List StreamRead → List RawStreamEntry
entries_of [] = []
entries_of ((key, es) ∷ reads) = es ++ entries_of reads

-- `entries[entries.length - 1]`
unfoldable pub last_of {ℓ} : {A : Type ℓ} → List A → Option A
last_of [] = none
last_of (x ∷ []) = some x
last_of (x ∷ y ∷ rest) = last_of (y ∷ rest)

-- `e._tag === "ConnectionError"`: what the retry schedule goes on for.
unfoldable pub is_connection_error : RedisError → Bool
is_connection_error (connection_error message) = true
is_connection_error _ = false

unfoldable pub is_busy_group : RedisError → Bool
unfolding is_command_error_with
is_busy_group e = is_command_error_with "BUSYGROUP" e

-- The Ref `lastId` beside the state of the outside.
pub record Reading (W : Type 0) : Type 0 where
  pub last_id : String
  pub outside : W

-- How a stream with this error type stands: it has ended with an error or a defect, or goes on.
pub data StatusOf (E : Type 0) : Type 0 where
  running : StatusOf E
  stopped : E → StatusOf E
  crashed : String → StatusOf E

abbrev pub Status : Type 0
Status = StatusOf RedisError

module _ (durations : Durations) where
  open durations use {DurationInput, Duration, to_millis, seconds, of_duration}

  abbrev default_block : DurationInput
  default_block = of_duration (seconds (of_ℕ 5))

  -- A block below one millisecond, which Redis would take for "forever", is the default.
  unfoldable pub consumer_block : Option DurationInput → DurationInput
  consumer_block none = default_block
  consumer_block (some block) = if less (to_millis block) (of_ℕ 1) then default_block else block

  module _ {W : Type 0} (send : RedisCommand → Effect W RedisError RespValue) (key : String)
      (count : Option Number) (block : Option DurationInput) where
    abbrev read_command : String → RedisCommand
    read_command last_id =
        Cmd.xread durations ((key, last_id) ∷ [])
          (record { count = count; block = some (consumer_block block) })

    abbrev in_outside : {A : Type 0} → Effect W RedisError A → Effect (Reading W) RedisError A
    in_outside m s = let (r, w) = m s.outside in (r, record { last_id = s.last_id; outside = w })

    advance :
        Option RawStreamEntry
        → List RawStreamEntry
        → Effect (Reading W) RedisError (List RawStreamEntry)
    advance none entries s = (succeed [], s)
    advance (some last) entries s =
        (succeed entries, record { last_id = last.id; outside = s.outside })

    -- One round of `pump`.
    unfoldable pub read_round : Effect (Reading W) RedisError (List RawStreamEntry)
    unfolding advance
    read_round s =
        (do
          reply ← in_outside (send (read_command s.last_id))
          reads ← decoded (decode_stream_reads reply)
          advance (last_of (entries_of reads)) (entries_of reads))
          s

    -- What a consumer has been given, how its stream stands, and the state.
    abbrev pub Consumed : Type 0
    Consumed = List RawStreamEntry × Status × Reading W

    after_round : Exit RedisError (List RawStreamEntry) → Reading W → Consumed → Consumed
    after_round (succeed entries) s (later, status, s') = (entries ++ later, status, s')
    after_round (fail e) s later = if is_connection_error e then later else ([], stopped e, s)
    after_round (die d) s later = ([], crashed d, s)

    -- The stream over so many rounds: a lost connection begins the next round on a fresh one, with
    -- the Ref as it is; any other failure ends the stream.
    unfoldable pub consume : ℕ → Reading W → Consumed
    unfolding after_round
    consume zero s = ([], running, s)
    consume (suc rounds) s = let (r, s') = read_round s in after_round r s' (consume rounds s')

    -- `streams.read`, with the seed that `from` gives.
    unfoldable pub read : Option String → ℕ → W → Consumed
    read from rounds w = consume rounds (record { last_id = or_else from "$"; outside = w })

  -- `streams.readGroup`: the group is created first, and one that exists already is no failure.
  module _ {W : Type 0} (send : RedisCommand → Effect W RedisError RespValue)
      (key group : String) where
    unfoldable pub ensure_group : Option String → Effect W RedisError (Unit {0})
    ensure_group from = as_void (
        catch_if is_busy_group (λ e. pure null)
          (send (Cmd.xgroup_create key group (some (or_else from "$")) true)))
