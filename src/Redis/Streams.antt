-- ===== src/Redis/Streams.antt =====
-- The one-shot commands on streams (`makeRedis` of Redis.ts).
use redfx.Common.{String, Bool, List, [], ◌∷◌, Option, none}
use redfx.Js.Number.{Number, of_ℕ}
use redfx.Js.Object.{Obj}
use redfx.Durations.{Durations}
use redfx.RedisError.{RedisError}
use redfx.Run.{Effect, pure, as_void, map_effect}
use redfx.Connection.{ConnectionService}
use redfx.RedisCommand.{TrimArgs, XReadArgs}
use redfx.Cmd.Streams as Cmd
use redfx.Cmd.Streams.{XAddOptions, PendingOptions, or_else}
use redfx.Decode.{
  RawStreamEntry, StreamRead, PendingSummary, PendingEntry, XAutoclaimResult, decode_string,
  decode_number, decode_entries, decode_stream_reads, decode_xautoclaim, decode_pending_summary,
  decode_pending_entries, decode_info_record, decode_info_record_array,
}
use redfx.Redis.Keys.{ask}

module _ {W : Type 0} (conn : ConnectionService W) where
  unfoldable pub xadd : String → Obj String → XAddOptions → Effect W RedisError String
  xadd key fields options = ask conn decode_string (Cmd.xadd key fields options)

  unfoldable pub xlen : String → Effect W RedisError Number
  xlen key = ask conn decode_number (Cmd.xlen key)

  unfoldable pub xrange :
      String
      → Option String
      → Option String
      → Option Number
      → Effect W RedisError (List RawStreamEntry)
  xrange key start end count =
      ask conn decode_entries (Cmd.xrange key (or_else start "-") (or_else end "+") count)

  unfoldable pub xrevrange :
      String
      → Option String
      → Option String
      → Option Number
      → Effect W RedisError (List RawStreamEntry)
  xrevrange key start end count =
      ask conn decode_entries (Cmd.xrevrange key (or_else start "-") (or_else end "+") count)

  unfoldable pub xdel : String → List String → Effect W RedisError Number
  xdel key [] = pure (of_ℕ 0)
  xdel key (id ∷ ids) = ask conn decode_number (Cmd.xdel key (id ∷ ids))

  unfoldable pub xtrim : String → TrimArgs → Effect W RedisError Number
  xtrim key options = ask conn decode_number (Cmd.xtrim key options)

  unfoldable pub xgroup_create :
      String → String → Option String → Bool → Effect W RedisError (Unit {0})
  xgroup_create key group from mk_stream =
      as_void (conn.send (Cmd.xgroup_create key group from mk_stream))

  unfoldable pub xack : String → String → List String → Effect W RedisError Number
  xack key group [] = pure (of_ℕ 0)
  xack key group (id ∷ ids) = ask conn decode_number (Cmd.xack key group (id ∷ ids))

  unfoldable pub xpending : String → String → Effect W RedisError PendingSummary
  xpending key group = ask conn decode_pending_summary (Cmd.xpending key group)

  unfoldable pub xinfo_stream : String → Effect W RedisError (Obj String)
  xinfo_stream key = ask conn decode_info_record (Cmd.xinfo_stream key)

  unfoldable pub xinfo_groups : String → Effect W RedisError (List (Obj String))
  xinfo_groups key = ask conn decode_info_record_array (Cmd.xinfo_groups key)

  module _ (durations : Durations) where
    open durations use {DurationInput}

    unfoldable pub xread :
        List (String × String) → XReadArgs DurationInput → Effect W RedisError (List StreamRead)
    xread streams options = ask conn decode_stream_reads (Cmd.xread durations streams options)

    unfoldable pub xread_group :
        String
        → String
        → List (String × String)
        → XReadArgs DurationInput
        → Bool
        → Effect W RedisError (List StreamRead)
    xread_group group consumer streams options no_ack =
        ask conn decode_stream_reads
          (Cmd.xread_group durations group consumer streams options no_ack)

    unfoldable pub xpending_extended :
        String → String → PendingOptions DurationInput → Effect W RedisError (List PendingEntry)
    xpending_extended key group options =
        ask conn decode_pending_entries (Cmd.xpending_extended durations key group options)

    unfoldable pub xclaim :
        String
        → String
        → String
        → DurationInput
        → List String
        → Effect W RedisError (List RawStreamEntry)
    xclaim key group consumer min_idle ids =
        ask conn decode_entries (Cmd.xclaim durations key group consumer min_idle ids)

    unfoldable pub xautoclaim :
        String
        → String
        → String
        → DurationInput
        → Option String
        → Option Number
        → Effect W RedisError XAutoclaimResult
    xautoclaim key group consumer min_idle start count =
        ask conn decode_xautoclaim
          (Cmd.xautoclaim durations key group consumer min_idle start count)

    -- One round from the start of the pending list.
    unfoldable pub claim_stale :
        String
        → String
        → String
        → DurationInput
        → Option Number
        → Effect W RedisError (List RawStreamEntry)
    claim_stale key group consumer min_idle count =
        map_effect (λ r. r.entries) (xautoclaim key group consumer min_idle none count)
