-- ===== src/Decode/Stream.antt =====
-- The decoders of stream replies (decode.ts).
use redfx.Common.{String, List, [], ◌∷◌, Option}
use redfx.Js.Text.{◌<>◌}
use redfx.Js.Number.{Number}
use redfx.Js.Object.{Obj}
use redfx.Resp.{RespValue, null, bytes, arr, obj, items, properties, typeof}
use redfx.Effect.{succeed, ◌>>=◌, map_exit, all_pair, for_each}
use redfx.Decode.Scalar.{
  Decoded, decode_failure, decode_option_string, decode_string, decode_number, decode_array,
  decode_string_array,
}
use redfx.Decode.Flat.{decode_record}

pub record RawStreamEntry : Type 0 where
  pub id : String
  pub fields : Obj String

abbrev pub StreamRead : Type 0
StreamRead = String × List RawStreamEntry

pub record PendingSummary : Type 0 where
  pub count : Number
  pub min_id : Option String
  pub max_id : Option String
  pub consumers : List (String × Number)

pub record PendingEntry : Type 0 where
  pub id : String
  pub consumer : String
  pub idle_ms : Number
  pub delivery_count : Number

pub record XAutoclaimResult : Type 0 where
  pub cursor : String
  pub entries : List RawStreamEntry
  pub deleted : List String

entry_items : RespValue → List RespValue → Decoded RawStreamEntry
entry_items v (id_reply ∷ fields_reply ∷ []) =
    map_exit (λ p. record { id = p.0; fields = p.1 })
      (all_pair (decode_string id_reply) (decode_record fields_reply))
entry_items v _ = decode_failure "expected [id, fields] stream entry" v

unfoldable pub decode_entry : RespValue → Decoded RawStreamEntry
unfolding entry_items
decode_entry (arr vs) = entry_items (arr vs) (items vs)
decode_entry v = decode_failure "expected [id, fields] stream entry" v

unfoldable pub decode_entries : RespValue → Decoded (List RawStreamEntry)
decode_entries null = succeed []
decode_entries v = decode_array v >>= for_each decode_entry

abbrev not_stream_read : RespValue → Decoded StreamRead
not_stream_read pair = decode_failure "expected [key, entries] stream read" pair

unfoldable pub read_items : RespValue → List RespValue → Decoded StreamRead
read_items pair (key ∷ entries ∷ []) = all_pair (decode_string key) (decode_entries entries)
read_items pair _ = not_stream_read pair

unfoldable pub decode_read_pair : RespValue → Decoded StreamRead
unfolding read_items
decode_read_pair (arr vs) = read_items (arr vs) (items vs)
decode_read_pair v = not_stream_read v

unfoldable pub decode_read_property : String × RespValue → Decoded StreamRead
decode_read_property (key, entries) = map_exit (λ es. (key, es)) (decode_entries entries)

unfoldable pub decode_stream_reads : RespValue → Decoded (List StreamRead)
unfolding decode_read_pair decode_read_property
decode_stream_reads null = succeed []
decode_stream_reads (arr vs) = for_each decode_read_pair (items vs)
decode_stream_reads (bytes bs) =
    decode_failure "expected stream read map or array, got Uint8Array" (bytes bs)
decode_stream_reads (obj ps) = for_each decode_read_property (properties ps)
decode_stream_reads v = decode_failure ("expected stream read map or array, got " <> typeof v) v

-- The third element: `undefined` on Redis 6.2, where the reply has two.
decode_deleted : List RespValue → Decoded (List String)
decode_deleted [] = succeed []
decode_deleted (null ∷ rest) = succeed []
decode_deleted (deleted ∷ rest) = decode_string_array deleted

xautoclaim_items : RespValue → List RespValue → Decoded XAutoclaimResult
unfolding decode_deleted
xautoclaim_items v (cursor ∷ entries ∷ rest) = do
  c ← decode_string cursor
  es ← decode_entries entries
  ds ← decode_deleted rest
  succeed (record { cursor = c; entries = es; deleted = ds })
xautoclaim_items v _ = decode_failure "expected XAUTOCLAIM reply" v

unfoldable pub decode_xautoclaim : RespValue → Decoded XAutoclaimResult
unfolding xautoclaim_items
decode_xautoclaim (arr vs) = xautoclaim_items (arr vs) (items vs)
decode_xautoclaim v = decode_failure "expected XAUTOCLAIM reply" v

consumer_items : RespValue → List RespValue → Decoded (String × Number)
consumer_items pair (name ∷ n ∷ []) = all_pair (decode_string name) (decode_number n)
consumer_items pair _ = decode_failure "expected [consumer, count] pair" pair

decode_consumer : RespValue → Decoded (String × Number)
unfolding consumer_items
decode_consumer (arr vs) = consumer_items (arr vs) (items vs)
decode_consumer pair = decode_failure "expected [consumer, count] pair" pair

decode_consumers : RespValue → Decoded (List (String × Number))
unfolding decode_consumer
decode_consumers null = succeed []
decode_consumers r = decode_array r >>= for_each decode_consumer

summary_items : RespValue → List RespValue → Decoded PendingSummary
unfolding decode_consumers
summary_items v (count ∷ min_id ∷ max_id ∷ consumers ∷ rest) = do
  n ← decode_number count
  low ← decode_option_string min_id
  high ← decode_option_string max_id
  cs ← decode_consumers consumers
  succeed (record { count = n; min_id = low; max_id = high; consumers = cs })
summary_items v _ = decode_failure "expected XPENDING summary" v

unfoldable pub decode_pending_summary : RespValue → Decoded PendingSummary
unfolding summary_items
decode_pending_summary (arr vs) = summary_items (arr vs) (items vs)
decode_pending_summary v = decode_failure "expected XPENDING summary" v

row_items : RespValue → List RespValue → Decoded PendingEntry
row_items row (id ∷ consumer ∷ idle ∷ deliveries ∷ []) = do
  i ← decode_string id
  c ← decode_string consumer
  ms ← decode_number idle
  n ← decode_number deliveries
  succeed (record { id = i; consumer = c; idle_ms = ms; delivery_count = n })
row_items row _ = decode_failure "expected XPENDING extended row" row

unfoldable pub decode_pending_row : RespValue → Decoded PendingEntry
unfolding row_items
decode_pending_row (arr vs) = row_items (arr vs) (items vs)
decode_pending_row row = decode_failure "expected XPENDING extended row" row

unfoldable pub decode_pending_entries : RespValue → Decoded (List PendingEntry)
unfolding decode_pending_row
decode_pending_entries null = succeed []
decode_pending_entries v = decode_array v >>= for_each decode_pending_row
