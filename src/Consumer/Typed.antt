-- ===== src/Consumer/Typed.antt =====
-- The consumers of a typed stream (packages/core/src/Redis.ts, `Redis.stream`: `read`, `group`,
-- `consume`): an effect runs on each entry that the rounds of a raw stream deliver, and its first
-- failure ends the stream, which is not retried.
pub mod Emission
pub mod Decoded
pub mod Watched
pub mod Ledger
pub mod Kept
use redfx.Common.{ℕ, zero, suc, String, List, [], ◌∷◌, ◌++◌, Option, if◌then◌else◌}
use redfx.Js.Number.{Number}
use redfx.Durations.{Durations}
use redfx.Resp.{RespValue}
use redfx.RedisError.{RedisError}
use redfx.Effect.{Exit, succeed, fail, die, map_exit}
use redfx.Run.{Effect, lift}
use redfx.RedisCommand.{RedisCommand}
use redfx.Redis.Service.{RedisService}
use redfx.Cmd.Streams.{or_else}
use redfx.Ref.{Codec}
use redfx.Ref.StreamOf.{StreamEntry, decode_message, decode_typed}
use redfx.Consumer.{
  StatusOf, running, stopped, crashed, is_connection_error, Reading, read_round, ensure_group,
}
use redfx.Consumer.Group.{GroupEntry, group_round}
use redfx.Consumer.Handled.{ConsumeError, entry_error, consume_entry}

-- A typed group entry: the decoded message plus its `ack`.
pub record StreamGroupEntry (W A : Type 0) : Type 0 where
  pub id : String
  pub message : A
  pub ack : Effect W RedisError (Unit {0})

-- What a stream has emitted, how it stands, and the state.
abbrev pub Emitted : Type 0 → Type 0 → Type 0 → Type 0
Emitted S E B = List B × StatusOf E × S

abbrev pub same_error : RedisError → RedisError
same_error e = e

module _ {S E X B : Type 0} (of_redis : RedisError → E) (f : X → Effect S E B) where
  after_entry : Exit E B → S → (S → Emitted S E B) → Emitted S E B
  after_entry (succeed b) s next = let (bs, status, s') = next s in (b ∷ bs, status, s')
  after_entry (fail e) s next = ([], stopped e, s)
  after_entry (die d) s next = ([], crashed d, s)

  -- `Stream.mapEffect(f)` over the entries of a round.
  unfoldable pub map_entries : List X → S → Emitted S E B
  unfolding after_entry
  map_entries [] s = ([], running, s)
  map_entries (x ∷ xs) s = let (r, s') = f x s in after_entry r s' (map_entries xs)

  -- The next round is pulled once every entry of this one is done.
  unfoldable pub after_entries : Emitted S E B → (S → Emitted S E B) → Emitted S E B
  after_entries (bs, running, s) next = let (more, status, s') = next s in (bs ++ more, status, s')
  after_entries (bs, stopped e, s) next = (bs, stopped e, s)
  after_entries (bs, crashed d, s) next = (bs, crashed d, s)

  after_pull : Exit RedisError (List X) → S → (S → Emitted S E B) → Emitted S E B
  unfolding after_entries
  after_pull (succeed xs) s next = after_entries (map_entries xs s) next
  after_pull (fail e) s next =
      if is_connection_error e then next s else ([], stopped (of_redis e), s)
  after_pull (die d) s next = ([], crashed d, s)

  unfoldable pub map_rounds : Effect S RedisError (List X) → ℕ → S → Emitted S E B
  unfolding after_pull
  map_rounds round zero s = ([], running, s)
  map_rounds round (suc rounds) s =
      let (r, s') = round s in after_pull r s' (map_rounds round rounds)

module _ {W A : Type 0} {durations : Durations} (r : RedisService W durations)
    (send : RedisCommand → Effect W RedisError RespValue) (codec : Codec A) (key : String)
    (count : Option Number) (block : Option durations.DurationInput) where
  -- `read`
  unfoldable pub typed_read : Option String → ℕ → W → Emitted (Reading W) RedisError (StreamEntry A)
  typed_read from rounds w =
      map_rounds same_error (λ e. lift (decode_typed r codec key e))
        (read_round durations send key count block) rounds
        (record { last_id = or_else from "$"; outside = w })

  module _ (group consumer : String) where
    unfoldable pub decode_entry : GroupEntry W → Exit RedisError (StreamGroupEntry W A)
    decode_entry e =
        map_exit (λ message. record { id = e.id; message = message; ack = e.ack })
          (decode_message r codec key e.fields)

    -- The group is created before the first round.
    when_created :
        {E B : Type 0}
        → (RedisError → E)
        → Exit RedisError (Unit {0})
        → W
        → (W → Emitted W E B)
        → Emitted W E B
    when_created of_redis (succeed u) w next = next w
    when_created of_redis (fail e) w next = ([], stopped (of_redis e), w)
    when_created of_redis (die d) w next = ([], crashed d, w)

    abbrev in_group :
        {E B : Type 0}
        → (RedisError → E)
        → (GroupEntry W → Effect W E B)
        → Option String
        → ℕ
        → W
        → Emitted W E B
    in_group of_redis f from rounds w =
        let (created, w') = ensure_group durations send key group from w in
        when_created of_redis created w'
          (map_rounds of_redis f (group_round durations send key group consumer count block) rounds)

    unfoldable pub typed_group : Option String → ℕ → W → Emitted W RedisError (StreamGroupEntry W A)
    unfolding decode_entry when_created
    typed_group = in_group same_error (λ e. lift (decode_entry e))

    unfoldable pub typed_consume :
        {E : Type 0}
        → (A → Effect W E (Unit {0}))
        → Option String
        → ℕ
        → W
        → Emitted W (ConsumeError E) A
    unfolding when_created
    typed_consume handler = in_group entry_error (consume_entry r codec key handler)
