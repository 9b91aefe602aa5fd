-- ===== src/Consumer/TypedTests.antt =====
-- A typed stream whose second message does not decode.
use redfx.Common.{ℕ, zero, suc, String, ◌≡◌, refl, [], ◌∷◌, none, some, if◌then◌else◌, ◌==◌}
use redfx.Js.Object.{assign_all, define, lookup}
use redfx.Resp.{RespValue, str, null, array}
use redfx.RedisError.{RedisError}
use redfx.Effect.{for_each, succeed, fail}
use redfx.Run.{Effect}
use redfx.RedisCommand.{RedisCommand}
use redfx.Durations.Whole.{whole}
use redfx.Redis.Service.{RedisService}
use redfx.Redis.Make.{make_redis}
use redfx.Decode.{
  decode_stream_reads, decode_string, decode_entries, decode_array, decode_entry, decode_record,
}
use redfx.Ref.{Codec, to_decode_error}
use redfx.Ref.StreamOf.{decode_typed, decode_message}
use redfx.Consumer.{entries_of, last_of, read, read_round}
use redfx.Consumer.Group.{read_group}
use redfx.Consumer.Typed.{typed_read, typed_group, map_rounds, map_entries}
use redfx.Consumer.Typed.Decoded.{DecodesTo, decode_group, typed_streams-DecodesTo}

abbrev entry_reply : String → String → RespValue
entry_reply id message = array (
    array (str "s" ∷ array (array (str id ∷ array (str "d" ∷ str message ∷ []) ∷ []) ∷ []) ∷ [])
    ∷ [])

abbrev nth_reply : ℕ → RespValue
nth_reply zero = entry_reply "1-0" "hello"
nth_reply (suc zero) = entry_reply "2-0" "boom"
nth_reply _ = null

-- The state counts the commands.
abbrev send : RedisCommand → Effect ℕ RedisError RespValue
send c n = (succeed (nth_reply n), suc n)

abbrev service : RedisService ℕ whole
service =
    make_redis whole
      (record { send = send; pipeline = λ cs w. (succeed [], w); close = λ w. (succeed tt, w) })

abbrev no_boom : Codec String
no_boom = record {
  encode = λ s. succeed s;
  decode = λ s. if s == "boom" then fail "no" else succeed s;
}

boom_ends_it :
    let (messages, status, s) = typed_read service send no_boom "s" none none (some "0-0") 3 0 in
    (messages ≡ record { id = "1-0"; message = "hello" } ∷ [])
    × (s.last_id ≡ "2-0")
    × (s.outside ≡ 2)
unfolding typed_read map_rounds map_entries read_round decode_typed decode_message to_decode_error
    decode_stream_reads for_each decode_string decode_entries decode_array decode_entry
    decode_record last_of entries_of assign_all define lookup
boom_ends_it = (refl, refl, refl)

typed_streams-DecodesTo_example :
    (let (entries, before, s) = read whole send "s" none none (some "0-0") 3 0 in
      let (messages, after, s') = typed_read service send no_boom "s" none none (some "0-0") 3 0 in
      DecodesTo (decode_typed service no_boom "s") before entries messages after)
    × (let (entries, before, s) = read_group whole send "s" "g" "c" none none (some "0-0") 3 0 in
        let (messages, after, s') =
          typed_group service send no_boom "s" none none "g" "c" (some "0-0") 3 0 in
        DecodesTo
          (decode_group service send no_boom "s" none none "g" "c")
          before
          entries
          messages
          after)
typed_streams-DecodesTo_example =
    typed_streams-DecodesTo service send no_boom "s" none none "g" "c" (some "0-0") 3 0
