-- ===== src/Consumer/GroupTests.antt =====
-- A group that exists already, with two entries, on the second of which the handler fails.
use redfx.Common.{ℕ, ◌≡◌, refl, String, true, List, [], ◌∷◌, none, some, if◌then◌else◌, ◌==◌}
use redfx.Js.Number.{of_ℕ}
use redfx.Js.Object.{lookup, assign_all, define}
use redfx.Js.Text.{includes}
use redfx.Resp.{RespValue, num, str, array}
use redfx.RedisError.{RedisError, command_error}
use redfx.Effect.{succeed, fail, for_each}
use redfx.Run.{Effect}
use redfx.Durations.Whole.{whole}
use redfx.RedisCommand.{RedisCommand, command}
use redfx.Cmd.Streams as Cmd
use redfx.Decode.{
  RawStreamEntry, decode_stream_reads, decode_string, decode_entries, decode_array, decode_entry,
  decode_record,
}
use redfx.Redis.Service.{RedisService}
use redfx.Redis.Make.{make_redis}
use redfx.Ref.{Codec, to_decode_error}
use redfx.Ref.StreamOf.{decode_message}
use redfx.Consumer.{running, stopped, entries_of, ensure_group, is_busy_group}
use redfx.Consumer.Group.{group_round, group_command, to_entry}
use redfx.Script.{is_command_error_with}
use redfx.Consumer.Handled.{handler_error, consume_entry}
use redfx.Consumer.Typed.{typed_consume, map_rounds, map_entries}
use redfx.Consumer.Typed.Watched.{Logged, sent, ran, noted, watched}
use redfx.Consumer.Typed.Ledger.{Ledger}
use redfx.Consumer.Typed.Kept.{typed_consume-Keeps}

abbrev texts : Codec String
texts = record { encode = λ s. succeed s; decode = λ s. succeed s }

abbrev entry_reply : String → String → RespValue
entry_reply id message = array (str id ∷ array (str "d" ∷ str message ∷ []) ∷ [])

abbrev both : RespValue
both =
    array (
      array (str "s" ∷ array (entry_reply "1-0" "hello" ∷ entry_reply "2-0" "boom" ∷ []) ∷ []) ∷ [])

abbrev busy : RedisError
busy = command_error "BUSYGROUP Consumer Group name already exists" (some "BUSYGROUP") none

-- The state is a number that nothing changes.
abbrev send : RedisCommand → Effect ℕ RedisError RespValue
send c n = (
  if c.name == "XGROUP"
      then fail busy
      else if c.name == "XACK"
      then succeed (num (of_ℕ 1))
      else succeed both,
  n,
)

abbrev handler : String → Effect ℕ String (Unit {0})
handler s n = (if s == "boom" then fail "no" else succeed tt, n)

abbrev service : RedisService (Logged ℕ String String) whole
service =
    make_redis whole (record {
      send = noted send;
      pipeline = λ cs w. (succeed [], w);
      close = λ w. (succeed tt, w);
    })

-- The first message is acknowledged, the second one ends the stream, and nothing is read behind it.
second_is_left :
    let (ms, status, (w', log)) =
      typed_consume service
        (noted send)
        texts
        "s"
        none
        none
        "g"
        "c"
        (watched handler)
        none
        3
        (0, []) in
    (ms ≡ "hello" ∷ [])
    × (status ≡ stopped (handler_error "no"))
    × (log
        ≡ ran "boom" (fail "no")
          ∷ sent (Cmd.xack "s" "g" ("1-0" ∷ [])) (succeed (num (of_ℕ 1)))
          ∷ ran "hello" (succeed tt)
          ∷ sent (group_command whole send "s" "g" "c" none none) (succeed both)
          ∷ sent (Cmd.xgroup_create "s" "g" (some "$") true) (fail busy)
          ∷ [])
unfolding typed_consume map_rounds map_entries group_round to_entry consume_entry decode_message
    to_decode_error decode_stream_reads for_each decode_string decode_entries decode_array
    decode_entry decode_record entries_of assign_all define lookup ensure_group is_busy_group
    is_command_error_with Cmd.xgroup_create command includes Cmd.xread_group Cmd.xack
second_is_left = (refl, refl, refl)

typed_consume-Keeps_example :
    let (ms, status, (w', log)) =
      typed_consume service
        (noted send)
        texts
        "s"
        none
        none
        "g"
        "c"
        (watched handler)
        none
        3
        (0, []) in
    (pending : List RawStreamEntry) × Ledger service send texts "s" "g" "c" none none handler none
      log ms pending status
    × (status ≡ running → pending ≡ [])
typed_consume-Keeps_example =
    typed_consume-Keeps service send texts "s" "g" "c" none none handler none 3 0
