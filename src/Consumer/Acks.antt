-- ===== src/Consumer/Acks.antt =====
-- Which entries a handled group acknowledges.
use redfx.Common.{String, ◌≡◌, refl, List, [], ◌∷◌, ◌++◌, map, Option}
use redfx.Js.Number.{Number, of_ℕ}
use redfx.Durations.{Durations}
use redfx.Resp.{RespValue, num}
use redfx.RedisError.{RedisError}
use redfx.Effect.{Exit, succeed, fail}
use redfx.Run.{Effect, for_each_effect}
use redfx.RedisCommand.{RedisCommand}
use redfx.Cmd.Streams as Cmd
use redfx.Decode.{RawStreamEntry}
use redfx.Redis.Service.{RedisService}
use redfx.Ref.{Codec}
use redfx.Ref.StreamOf.{decode_message}
use redfx.Consumer.Group.{GroupEntry, to_entry}
use redfx.Consumer.Handled.{
  ConsumeError, handler_error, entry_error, consume_entry, consume_entries,
}

-- A connection that writes down what it sends.
abbrev pub noted : RedisCommand → Effect (List RedisCommand) RedisError RespValue
noted c log = (succeed (num (of_ℕ 1)), c ∷ log)

module _ {E A : Type 0} {durations : Durations} (r : RedisService (List RedisCommand) durations)
    (codec : Codec A) (key group consumer : String) (count : Option Number)
    (block : Option durations.DurationInput) (outcome : A → Exit E (Unit {0})) where
  abbrev pub handler : A → Effect (List RedisCommand) E (Unit {0})
  handler a log = (outcome a, log)

  abbrev pub entries : List RawStreamEntry → List (GroupEntry (List RedisCommand))
  entries es = map (to_entry durations noted key group consumer count block) es

  -- The entry decodes to a message, and the handler succeeds on it.
  pub data Handled (e : RawStreamEntry) : Type 0 where
    handled :
        (a : A)
        → decode_message r codec key e.fields ≡ succeed a
        → outcome a ≡ succeed tt
        → Handled e

  -- The entry does not decode, or the handler fails on it, with this error.
  pub data Fails (e : RawStreamEntry) : ConsumeError E → Type 0 where
    no_message :
        (err : RedisError)
        → decode_message r codec key e.fields ≡ fail err
        → Fails e (entry_error err)
    handler_fails :
        (a : A) (err : E)
        → decode_message r codec key e.fields ≡ succeed a
        → outcome a ≡ fail err
        → Fails e (handler_error err)

  pub data AllHandled : List RawStreamEntry → Type 0 where
    none_left : AllHandled []
    one_more :
        {e : RawStreamEntry} {es : List RawStreamEntry}
        → Handled e
        → AllHandled es
        → AllHandled (e ∷ es)

  -- The XACK of each entry, the last one first, on top of a log.
  abbrev pub acks : List RawStreamEntry → List RedisCommand → List RedisCommand
  acks [] log = log
  acks (e ∷ es) log = acks es (Cmd.xack key group (e.id ∷ []) ∷ log)

  -- The entries before the first that fails, in decoding or in the handler, are each acknowledged
  -- once, in order; that entry and those after it are not, and the stream ends with its error. So a
  -- message is acknowledged only behind a handler that succeeded on it.
  pub acknowledged_when_handled :
      (before rest : List RawStreamEntry) (e : RawStreamEntry) (err : ConsumeError E)
      (log : List RedisCommand)
      → AllHandled before
      → Fails e err
      → consume_entries r codec key handler (entries (before ++ e ∷ rest)) log
        ≡ (fail err, acks before log)
  unfolding consume_entries consume_entry for_each_effect to_entry
  acknowledged_when_handled [] rest e err log none_left (no_message lost undecoded) =
      rw undecoded refl
  acknowledged_when_handled [] rest e err log none_left (handler_fails a lost decoded failed_on) =
      rw (decoded, failed_on) refl
  acknowledged_when_handled (x ∷ before) rest e err log (one_more (handled a decoded done) others)
        fails =
      rw (decoded, done, acknowledged_when_handled before rest e err _ others fails) refl
