-- ===== src/Consumer/Subscribed.antt =====
-- `subscribe` of `makeRedis` (packages/core/src/Redis.ts): the messages of a channel, as they come or
-- decoded with a schema. What the connection's subscription has emitted so far, and how it stands, is
-- an argument.
use redfx.Common.{String, List, [], ◌∷◌, map}
use mathlib.Core.List.{append-nil}
use mathlib.Core.Path.{subst}
use redfx.RedisError.{RedisError}
use redfx.Effect.{Exit}
use redfx.Run.{lift}
use redfx.Connection.{PushMessage}
use redfx.Ref.{Codec, to_decode_error}
use redfx.Consumer.{Status}
use redfx.Consumer.Typed.{Emitted, map_entries, after_entries, same_error}
use redfx.Consumer.Typed.Decoded.{DecodesTo, done, after_entries-Follows}

abbrev Delivered : Type 0
Delivered = List PushMessage × Status

-- Without a schema.
unfoldable pub subscribe : (List String → Delivered) → String → List String × Status
subscribe conn_subscribe channel =
    let (ms, status) = conn_subscribe (channel ∷ []) in (map (λ m. m.message) ms, status)

module _ {A : Type 0} (codec : Codec A) where
  abbrev decode : PushMessage → Exit RedisError A
  decode m = to_decode_error (codec.decode m.message)

  -- With one: the first message that does not decode ends the stream.
  unfoldable pub subscribe_as : (List String → Delivered) → String → Emitted (Unit {0}) RedisError A
  subscribe_as conn_subscribe channel =
      let (ms, status) = conn_subscribe (channel ∷ []) in
      after_entries same_error (λ m. lift (decode m))
        (map_entries same_error (λ m. lift (decode m)) ms tt) (λ u. ([], status, u))

  subscribe_as-DecodesTo :
      (conn_subscribe : List String → Delivered) (channel : String)
      → let (ms, before) = conn_subscribe (channel ∷ []) in
        let (messages, after, u) = subscribe_as conn_subscribe channel in
        DecodesTo decode before ms messages after
  unfolding subscribe_as
  subscribe_as-DecodesTo conn_subscribe channel =
      let (ms, before) = conn_subscribe (channel ∷ []) in
      let (messages, after, u) = subscribe_as conn_subscribe channel in
      subst (λ xs. DecodesTo decode before xs messages after) (append-nil ms)
        (after_entries-Follows decode ms tt ([], before, tt) (λ u. ([], before, u)) done)
