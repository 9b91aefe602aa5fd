-- ===== src/Consumer/Server.antt =====
-- What the consumer relies on of the Redis server: XREAD from an id returns entries of the stream
-- behind this id, in order and from the first one on, new entries come at the end, and none is deleted.
use redfx.Common.{String, ◌≡◌, ◌≢◌, List, ◌∷◌, ◌++◌}
use redfx.Resp.{RespValue}
use redfx.RedisError.{RedisError}
use redfx.Effect.{succeed}
use redfx.Run.{Effect}
use redfx.RedisCommand.{RedisCommand}
use redfx.Decode.{RawStreamEntry, StreamRead, decode_stream_reads}
use redfx.Consumer.{entries_of}

-- `read_command last` is the XREAD that reads the stream behind `last`.
pub record StreamServer {W : Type 0} (send : RedisCommand → Effect W RedisError RespValue)
    (read_command : String → RedisCommand) : Type 0 where
  -- the entries of the stream with an id greater than this one, in order
  pub behind : String → W → List RawStreamEntry
  pub read_lem :
      (last : String) (w : W) (v : RespValue) (reads : List StreamRead)
      → last ≢ "$"
      → (send (read_command last) w).0 ≡ succeed v
      → decode_stream_reads v ≡ succeed reads
      → (rest : List RawStreamEntry) × (behind last (send (read_command last) w).1
          ≡ entries_of reads ++ rest)
  -- ids grow along the stream, and are never "$"
  pub behind_entry :
      (x : String) (w : W) (before : List RawStreamEntry) (e : RawStreamEntry)
      (rest : List RawStreamEntry)
      → behind x w ≡ before ++ e ∷ rest
      → (behind e.id w ≡ rest) × (e.id ≢ "$")
  -- whatever happens during a command, entries are only added at the end
  pub behind_grows :
      (c : RedisCommand) (x : String) (w : W) (before : List RawStreamEntry) (e : RawStreamEntry)
      → behind x w ≡ before ++ e ∷ behind e.id w
      → behind x (send c w).1 ≡ before ++ e ∷ behind e.id (send c w).1
