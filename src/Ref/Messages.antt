-- ===== src/Ref/Messages.antt =====
-- A message of a typed stream, from `add` to the entry that is read (`Redis.stream` of
-- packages/core/src/Redis.ts).
use redfx.Common.{String, ◌≡◌, refl, List, [], ◌∷◌, none, false}
use redfx.Js.Object.{lookup, assign_all, define, from_entries}
use redfx.Durations.{Durations}
use redfx.Resp.{RespValue, str, array, object}
use redfx.RedisError.{RedisError}
use redfx.Effect.{Exit, succeed, for_each}
use redfx.RedisCommand.{RedisCommand, command, hash_entries_args}
use redfx.Connection.{recorded}
use redfx.Cmd.Streams as Cmd
use redfx.Redis.Sends.{Sends, ask-Sends}
use redfx.Redis.Streams as Streams
use redfx.Redis.Service.{RedisService}
use redfx.Redis.Make.{make_redis}
use redfx.Decode.{RawStreamEntry, decode_entry, decode_string, decode_record, decode_property}
use redfx.Decode.Laws.Records.{texts}
use redfx.Ref.{Codec, to_decode_error}
use redfx.Ref.StreamOf.{add, decode_message, decode_typed}

module _ {A : Type 0} (durations : Durations) (codec : Codec A) (key : String)
    (reply : List RedisCommand → RedisCommand → Exit RedisError RespValue) where
  abbrev pub service : RedisService (List RedisCommand) durations
  service = make_redis durations (recorded reply)

  abbrev pub entry_of : String → String → RawStreamEntry
  entry_of id d = record { id = id; fields = ("d", d) ∷ [] }

  -- A message that encodes to a text is added by an XADD of this text under the field "d", with an id
  -- that the server chooses. An entry with these fields decodes to the message and its id, in the
  -- RESP2 and in the RESP3 form of the reply, if the schema decodes what it encodes.
  pub message_is_read_back :
      (message : A) (d id : String)
      → codec.encode message ≡ succeed d
      → codec.decode d ≡ succeed message
      → Sends reply
          (add service codec key message none false)
          (command "XADD" (key ∷ "*" ∷ "d" ∷ d ∷ []))
        × (decode_entry (array (str id ∷ array (texts (hash_entries_args (("d", d) ∷ []))) ∷ []))
            ≡ succeed (entry_of id d))
        × (decode_entry (array (str id ∷ object (("d", str d) ∷ []) ∷ []))
            ≡ succeed (entry_of id d))
        × (decode_typed service codec key (entry_of id d)
            ≡ succeed (record { id = id; message = message }))
  unfolding add make_redis Streams.xadd Cmd.xadd to_decode_error hash_entries_args decode_entry
      decode_string decode_record decode_property for_each assign_all define decode_typed
      decode_message lookup command from_entries
  message_is_read_back message d id encodes decodes =
      (λ log. rw encodes (ask-Sends reply _ _ log), refl, refl, rw decodes refl)
