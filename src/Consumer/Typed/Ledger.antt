-- ===== src/Consumer/Typed/Ledger.antt =====
-- What `consume` of a typed stream (packages/core/src/Redis.ts) does, command by command: a
-- specification of its log, against the rounds of the program.
use redfx.Common.{String, ◌≡◌, List, [], ◌∷◌, ◌++◌, Option, some, true, false}
use redfx.Js.Number.{Number}
use redfx.Durations.{Durations}
use redfx.Resp.{RespValue}
use redfx.RedisError.{RedisError}
use redfx.Effect.{Exit, succeed, fail, die}
use redfx.Run.{Effect}
use redfx.RedisCommand.{RedisCommand}
use redfx.Cmd.Streams as Cmd
use redfx.Cmd.Streams.{or_else}
use redfx.Redis.Service.{RedisService}
use redfx.Decode.{RawStreamEntry}
use redfx.Ref.{Codec}
use redfx.Ref.StreamOf.{decode_message}
use redfx.Consumer.{StatusOf, running, stopped, crashed, is_connection_error}
use redfx.Consumer.Group.{group_command}
use redfx.Consumer.Handled.{ConsumeError, handler_error, entry_error}
use redfx.Consumer.Typed.Watched.{Event, sent, ran, Logged, fetched_by, made_by}

-- How a stream stands once something has failed.
pub data Ends {E F X : Type 0} (of_failure : F → E) : Exit F X → StatusOf E → Type 0 where
  with_failure : (e : F) → Ends of_failure (fail e) (stopped (of_failure e))
  with_defect : (d : String) → Ends of_failure (die d) (crashed d)

module _ {W E A : Type 0} {durations : Durations} (r : RedisService (Logged W E A) durations)
    (send : RedisCommand → Effect W RedisError RespValue) (codec : Codec A)
    (key group consumer : String) (count : Option Number) (block : Option durations.DurationInput)
    (handler : A → Effect W E (Unit {0})) (from : Option String) where
  abbrev pub create : RedisCommand
  create = Cmd.xgroup_create key group (some (or_else from "$")) true

  abbrev pub fetch : RedisCommand
  fetch = group_command durations send key group consumer count block

  abbrev pub ack : RawStreamEntry → RedisCommand
  ack e = Cmd.xack key group (e.id ∷ [])

  abbrev pub message_of : RawStreamEntry → Exit RedisError A
  message_of e = decode_message r codec key e.fields

  -- The log of a consumer, with the messages that it has emitted, the delivered entries that it has
  -- not come to, and how it stands. Everything is behind the group's creation; nothing is fetched as
  -- long as a delivered entry is left; the first of these is acknowledged directly behind a handler
  -- that succeeded on its message, which is emitted behind the acknowledgement.
  pub data Ledger
      : List (Event E A) → List A → List RawStreamEntry → StatusOf (ConsumeError E) → Type 0 where
    created :
        (reply : Exit RedisError RespValue)
        → made_by reply ≡ succeed tt
        → Ledger (sent create reply ∷ []) [] [] running
    not_created :
        {status : StatusOf (ConsumeError E)} (reply : Exit RedisError RespValue)
        → Ends entry_error (made_by reply) status
        → Ledger (sent create reply ∷ []) [] [] status
    fetched :
        {log : List (Event E A)} {ms : List A} {es : List RawStreamEntry}
        (reply : Exit RedisError RespValue)
        → Ledger log ms [] running
        → fetched_by reply ≡ succeed es
        → Ledger (sent fetch reply ∷ log) ms es running
    reconnected :
        {log : List (Event E A)} {ms : List A} {e : RedisError} (reply : Exit RedisError RespValue)
        → Ledger log ms [] running
        → fetched_by reply ≡ fail e
        → is_connection_error e ≡ true
        → Ledger (sent fetch reply ∷ log) ms [] running
    not_fetched :
        {log : List (Event E A)} {ms : List A} {status : StatusOf (ConsumeError E)}
        (reply : Exit RedisError RespValue)
        → Ledger log ms [] running
        → ((e : RedisError) → fetched_by reply ≡ fail e → is_connection_error e ≡ false)
        → Ends entry_error (fetched_by reply) status
        → Ledger (sent fetch reply ∷ log) ms [] status
    acknowledged :
        {log : List (Event E A)} {ms : List A} {e : RawStreamEntry} {es : List RawStreamEntry}
        {a : A} (v : RespValue)
        → Ledger log ms (e ∷ es) running
        → message_of e ≡ succeed a
        → Ledger (sent (ack e) (succeed v) ∷ ran a (succeed tt) ∷ log) (ms ++ a ∷ []) es running
    not_acknowledged :
        {log : List (Event E A)} {ms : List A} {e : RawStreamEntry} {es : List RawStreamEntry}
        {a : A} {status : StatusOf (ConsumeError E)} (reply : Exit RedisError RespValue)
        → Ledger log ms (e ∷ es) running
        → message_of e ≡ succeed a
        → Ends entry_error reply status
        → Ledger (sent (ack e) reply ∷ ran a (succeed tt) ∷ log) ms (e ∷ es) status
    not_handled :
        {log : List (Event E A)} {ms : List A} {e : RawStreamEntry} {es : List RawStreamEntry}
        {a : A} {status : StatusOf (ConsumeError E)} (outcome : Exit E (Unit {0}))
        → Ledger log ms (e ∷ es) running
        → message_of e ≡ succeed a
        → Ends handler_error outcome status
        → Ledger (ran a outcome ∷ log) ms (e ∷ es) status
    not_decoded :
        {log : List (Event E A)} {ms : List A} {e : RawStreamEntry} {es : List RawStreamEntry}
        {status : StatusOf (ConsumeError E)}
        → Ledger log ms (e ∷ es) running
        → Ends entry_error (message_of e) status
        → Ledger log ms (e ∷ es) status
