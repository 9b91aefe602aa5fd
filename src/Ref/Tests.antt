-- ===== src/Ref/Tests.antt =====
-- The theorems about `Redis.ref` over a server that keeps values, and about `Redis.stream`.
use redfx.Durations.Whole.{whole}
use redfx.Common.{List, [], ◌∷◌, String, ◌≡◌, refl, false, true, none, some}
use redfx.Js.Text.{◌<>◌}
use redfx.RedisError.{RedisError, command_error}
use redfx.RedisCommand.{RedisCommand, hash_entries_args, command}
use redfx.Effect.{Exit, succeed, fail}
use redfx.Redis.Memory.{Store, put, service, value_server}
use redfx.Ref.{Codec, RefOptions, WriteOptions}
use redfx.Ref.Value.{get, update}
use redfx.Ref.StreamOf.{add, decode_typed}
use redfx.Ref.Messages.{service as stream_service, message_is_read_back}
use redfx.Redis.Sends.{Sends}
use redfx.Decode.{decode_entry}
use redfx.Decode.Laws.Records.{texts as replies_of}
use redfx.Resp.{RespValue, str, array, object}
use redfx.Ref.Laws.{update_is_read}
use redfx.Common.{ℕ}

abbrev texts : Codec String
texts = record { encode = λ s. succeed s; decode = λ s. succeed s }

texts_are_lawful : (a s : String) → texts.encode a ≡ succeed s → texts.decode s ≡ succeed a
texts_are_lawful a s encodes = cc

abbrev plain : RefOptions ℕ
plain = record { prefix = "user"; ttl = some 1500 }

abbrev kept_ttl : WriteOptions ℕ
kept_ttl = record { ttl = none; keep_ttl = true }

abbrev empty : Store
empty = record { values = λ k. none; kept = false }

update_is_read_example :
    (value_server.stored "user:7" (put "user:7" "ann" empty) ≡ none
      → update service texts plain "user:7" (λ s. s <> "a") false (put "user:7" "ann" empty) ≡ (
        fail (
            command_error
              ("ref.update: key \"" <> "user:7" <> "\" does not exist")
              (some "GET")
              none),
        put "user:7" "ann" empty,
      ))
    × ((s a : String) (w' : Store)
        → value_server.stored "user:7" (put "user:7" "ann" empty) ≡ some s
        → texts.decode s ≡ succeed a
        → update service texts plain "user:7" (λ s. s <> "a") false (put "user:7" "ann" empty)
          ≡ (succeed tt, w')
        → get service texts plain "user:7" w' ≡ (succeed (some (a <> "a")), w'))
update_is_read_example =
    update_is_read service texts plain "user:7" value_server texts_are_lawful (λ s. s <> "a") false
      (put "user:7" "ann" empty)

abbrev answer : List RedisCommand → RedisCommand → Exit RedisError RespValue
answer log c = succeed (str "1-0")

message_is_read_back_example :
    Sends answer
      (add (stream_service whole texts "log" answer) texts "log" "hello" none false)
      (command "XADD" ("log" ∷ "*" ∷ "d" ∷ "hello" ∷ []))
    × (decode_entry
          (array (str "1-0" ∷ array (replies_of (hash_entries_args (("d", "hello") ∷ []))) ∷ []))
        ≡ succeed (record { id = "1-0"; fields = ("d", "hello") ∷ [] }))
    × (decode_entry (array (str "1-0" ∷ object (("d", str "hello") ∷ []) ∷ []))
        ≡ succeed (record { id = "1-0"; fields = ("d", "hello") ∷ [] }))
    × (decode_typed
          (stream_service whole texts "log" answer)
          texts
          "log"
          (record { id = "1-0"; fields = ("d", "hello") ∷ [] })
        ≡ succeed (record { id = "1-0"; message = "hello" }))
message_is_read_back_example =
    message_is_read_back whole texts "log" answer "hello" "hello" "1-0" refl refl
