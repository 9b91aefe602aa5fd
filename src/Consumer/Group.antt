-- ===== src/Consumer/Group.antt =====
-- The consumer of a group (`streams.readGroup` of packages/core/src/Redis.ts, and the handler loop
-- of `consume` in its typed streams): rounds of XREADGROUP from ">", with an acknowledgement for each
-- entry.
use redfx.Common.{
  ℕ, zero, suc, String, false, List, [], ◌∷◌, ◌++◌, map, Option, some, if◌then◌else◌,
}
use redfx.Js.Number.{Number}
use redfx.Js.Object.{Obj}
use redfx.Durations.{Durations}
use redfx.Resp.{RespValue}
use redfx.RedisError.{RedisError}
use redfx.Effect.{Exit, succeed, fail, die}
use redfx.Run.{Effect, pure, decoded, as_void, ◌>>=◌}
use redfx.RedisCommand.{RedisCommand}
use redfx.Cmd.Streams as Cmd
use redfx.Decode.{RawStreamEntry, decode_stream_reads}
use redfx.Consumer.{
  Status, running, stopped, crashed, entries_of, is_connection_error, consumer_block, ensure_group,
}

-- An entry with the effect that acknowledges it.
pub record GroupEntry (W : Type 0) : Type 0 where
  pub id : String
  pub fields : Obj String
  pub ack : Effect W RedisError (Unit {0})

module _ {W : Type 0} (durations : Durations) (send : RedisCommand → Effect W RedisError RespValue)
    (key group consumer : String) (count : Option Number)
    (block : Option durations.DurationInput) where
  unfoldable pub to_entry : RawStreamEntry → GroupEntry W
  to_entry e = record {
    id = e.id;
    fields = e.fields;
    ack = as_void (send (Cmd.xack key group (e.id ∷ [])));
  }

  abbrev pub group_command : RedisCommand
  group_command =
      Cmd.xread_group durations group consumer ((key, ">") ∷ [])
        (record { count = count; block = some (consumer_block durations block) }) false

  -- One round of `pump`.
  unfoldable pub group_round : Effect W RedisError (List (GroupEntry W))
  unfolding to_entry
  group_round = do
    reply ← send group_command
    reads ← decoded (decode_stream_reads reply)
    pure (map to_entry (entries_of reads))

  abbrev pub GroupConsumed : Type 0
  GroupConsumed = List (GroupEntry W) × Status × W

  unfoldable pub after_group_round :
      Exit RedisError (List (GroupEntry W)) → W → GroupConsumed → GroupConsumed
  after_group_round (succeed entries) w (later, status, w') = (entries ++ later, status, w')
  after_group_round (fail e) w later = if is_connection_error e then later else ([], stopped e, w)
  after_group_round (die d) w later = ([], crashed d, w)

  unfoldable pub group_rounds : ℕ → W → GroupConsumed
  unfolding after_group_round
  group_rounds zero w = ([], running, w)
  group_rounds (suc rounds) w =
      let (r, w') = group_round w in after_group_round r w' (group_rounds rounds w')

  unfoldable pub group_created : ℕ → Exit RedisError (Unit {0}) → W → GroupConsumed
  group_created rounds (succeed u) w = group_rounds rounds w
  group_created rounds (fail e) w = ([], stopped e, w)
  group_created rounds (die d) w = ([], crashed d, w)

  -- The group is created once, outside the retries.
  unfoldable pub read_group : Option String → ℕ → W → GroupConsumed
  unfolding group_created
  read_group from rounds w =
      let (created, w') = ensure_group durations send key group from w in
      group_created rounds created w'
