-- ===== src/Consumer/Typed/Decoded.antt =====
-- What the typed consumers (`read` and `group` of `Redis.stream`, packages/core/src/Redis.ts) emit,
-- against what the raw ones of the service deliver.
use redfx.Common.{
  ℕ, zero, suc, String, ◌≡◌, refl, List, [], ◌∷◌, ◌++◌, Option, if◌then◌else◌, Bool-cases, inl, inr,
}
use redfx.Js.Number.{Number}
use redfx.Durations.{Durations}
use redfx.Resp.{RespValue}
use redfx.RedisError.{RedisError}
use redfx.Effect.{Exit, succeed, fail, die, Exit-cases, succeeded, failed, died}
use redfx.Run.{Effect, lift}
use redfx.RedisCommand.{RedisCommand}
use redfx.Redis.Service.{RedisService}
use redfx.Cmd.Streams.{or_else}
use redfx.Decode.{RawStreamEntry}
use redfx.Ref.{Codec}
use redfx.Ref.StreamOf.{decode_typed}
use redfx.Consumer.{
  Status, stopped, crashed, is_connection_error, Reading, read_round, ensure_group, consume, read,
  after_round,
}
use redfx.Consumer.Group.{
  GroupEntry, group_round, group_rounds, read_group, after_group_round, group_created,
}
use redfx.Consumer.Typed.{
  Emitted, map_entries, after_entry, after_entries, after_pull, map_rounds, StreamGroupEntry,
  typed_read, typed_group, decode_entry, when_created, same_error,
}
use redfx.Consumer.Typed.Emission.{after_entries-cons, after_entries-none}

module _ {X B : Type 0} (g : X → Exit RedisError B) where
  -- A stream of these entries, which then stands as in the second place, gives these results one
  -- after the other, and stands as in the last place: the first entry whose decoding fails ends it.
  pub data DecodesTo (before : Status) : List X → List B → Status → Type 0 where
    done : DecodesTo before [] [] before
    decodes :
        {x : X} {b : B} {xs : List X} {bs : List B} {after : Status}
        → g x ≡ succeed b
        → DecodesTo before xs bs after
        → DecodesTo before (x ∷ xs) (b ∷ bs) after
    fails :
        {x : X} {xs : List X} {e : RedisError}
        → g x ≡ fail e
        → DecodesTo before (x ∷ xs) [] (stopped e)
    dies :
        {x : X} {xs : List X} {d : String} → g x ≡ die d → DecodesTo before (x ∷ xs) [] (crashed d)

  abbrev pub Raw : Type 0 → Type 0
  Raw S = List X × Status × S

  abbrev pub Follows : {S : Type 0} → Raw S → Emitted S RedisError B → Type 0
  Follows (xs, before, s) (bs, after, s') = DecodesTo before xs bs after

  module _ {S : Type 0} where
    abbrev pub decoding : X → Effect S RedisError B
    decoding x = lift (g x)

    -- The entries of a round, then the rounds behind it.
    pub after_entries-Follows :
        (xs : List X) (s : S) (later : Raw S) (next : S → Emitted S RedisError B)
        → Follows later (next s)
        → let (ys, before, s') = later in
          Follows
            (xs ++ ys, before, s')
            (after_entries same_error decoding (map_entries same_error decoding xs s) next)
    unfolding map_entries after_entry
    after_entries-Follows [] s later next follows =
        rw ((after_entries-none same_error decoding s next).0) follows
    after_entries-Follows (x ∷ xs) s later next follows = elim (Exit-cases (g x)) [
      | succeeded b same ↦
          let rest = after_entries-Follows xs s later next follows in
          rw
            (
              same,
              after_entries-cons same_error decoding b (map_entries same_error decoding xs s) next,
            )
            (decodes same rest)
      | failed e same ↦ rw (same, (after_entries-none same_error decoding s next).1 e) (fails same)
      | died d same ↦ rw (same, (after_entries-none same_error decoding s next).2 d) (dies same)
    ]

    -- What a raw consumer makes of the outcome of a round, with what the later rounds come to.
    after_raw : Exit RedisError (List X) → S → Raw S → Raw S
    after_raw (succeed xs) s (later, status, s') = (xs ++ later, status, s')
    after_raw (fail e) s later = if is_connection_error e then later else ([], stopped e, s)
    after_raw (die d) s later = ([], crashed d, s)

    after_pull-Follows :
        (pulled : Exit RedisError (List X)) (s : S) (later : Raw S)
        (next : S → Emitted S RedisError B)
        → Follows later (next s)
        → Follows (after_raw pulled s later) (after_pull same_error decoding pulled s next)
    unfolding after_pull after_raw
    after_pull-Follows (succeed xs) s later next follows =
        after_entries-Follows xs s later next follows
    after_pull-Follows (fail e) s later next follows = elim (Bool-cases (is_connection_error e)) [
      | inl lost ↦ rw lost follows
      | inr kept ↦ rw kept done
    ]
    after_pull-Follows (die d) s later next follows = done

module _ {W A : Type 0} {durations : Durations} (r : RedisService W durations)
    (send : RedisCommand → Effect W RedisError RespValue) (codec : Codec A) (key : String)
    (count : Option Number) (block : Option durations.DurationInput) where
  after_round-raw :
      (pulled : Exit RedisError (List RawStreamEntry)) (s : Reading W)
      (later : List RawStreamEntry × Status × Reading W)
      → after_round durations send key count block pulled s later
        ≡ after_raw (decode_typed r codec key) pulled s later
  unfolding after_round after_raw
  after_round-raw (succeed xs) s later = refl
  after_round-raw (fail e) s later = refl
  after_round-raw (die d) s later = refl

  consume-Follows :
      (rounds : ℕ) (s : Reading W)
      → Follows (decode_typed r codec key) (consume durations send key count block rounds s) (
          map_rounds same_error
            (λ e. lift (decode_typed r codec key e))
            (read_round durations send key count block)
            rounds
            s)
  unfolding consume map_rounds
  consume-Follows zero s = done
  consume-Follows (suc rounds) s =
      let (pulled, s') = read_round durations send key count block s in
      rw (after_round-raw pulled s')
        (after_pull-Follows (decode_typed r codec key) pulled s' _ _ (consume-Follows rounds s'))

  typed_read-DecodesTo :
      (from : Option String) (rounds : ℕ) (w : W)
      → let (entries, before, s) = read durations send key count block from rounds w in
        let (messages, after, s') = typed_read r send codec key count block from rounds w in
        DecodesTo (decode_typed r codec key) before entries messages after
  unfolding read typed_read
  typed_read-DecodesTo from rounds w =
      consume-Follows rounds (record { last_id = or_else from "$"; outside = w })

  module _ (group consumer : String) where
    abbrev pub decode_group : GroupEntry W → Exit RedisError (StreamGroupEntry W A)
    decode_group = decode_entry r send codec key count block group consumer

    after_group_round-raw :
        (pulled : Exit RedisError (List (GroupEntry W))) (w : W)
        (later : List (GroupEntry W) × Status × W)
        → after_group_round durations send key group consumer count block pulled w later
          ≡ after_raw decode_group pulled w later
    unfolding after_group_round after_raw
    after_group_round-raw (succeed xs) w later = refl
    after_group_round-raw (fail e) w later = refl
    after_group_round-raw (die d) w later = refl

    group_rounds-Follows :
        (rounds : ℕ) (w : W)
        → Follows decode_group
            (group_rounds durations send key group consumer count block rounds w)
            (map_rounds same_error
              (λ e. lift (decode_group e))
              (group_round durations send key group consumer count block)
              rounds
              w)
    unfolding group_rounds map_rounds
    group_rounds-Follows zero w = done
    group_rounds-Follows (suc rounds) w =
        let (pulled, w') = group_round durations send key group consumer count block w in
        rw (after_group_round-raw pulled w')
          (after_pull-Follows decode_group pulled w' _ _ (group_rounds-Follows rounds w'))

    typed_group-DecodesTo :
        (from : Option String) (rounds : ℕ) (w : W)
        → let (entries, before, s) =
            read_group durations send key group consumer count block from rounds w in
          let (messages, after, s') =
            typed_group r send codec key count block group consumer from rounds w in
          DecodesTo decode_group before entries messages after
    unfolding read_group typed_group group_created when_created
    typed_group-DecodesTo from rounds w =
        let (created, w') = ensure_group durations send key group from w in
        elim (Exit-cases created) [
          | succeeded u same ↦ rw same (group_rounds-Follows rounds w')
          | failed e same ↦ rw same done
          | died d same ↦ rw same done
        ]

    -- The typed `read` and `group` emit the messages of the entries that the raw streams of the service
    -- deliver over as many rounds, those of the group with their acknowledgements, in order and each
    -- once, up to the first entry that does not decode, whose error ends them, even if more rounds
    -- would follow; if all decode, or the group cannot be created, they stand as the raw ones do.
    pub typed_streams-DecodesTo :
        (from : Option String) (rounds : ℕ) (w : W)
        → (let (entries, before, s) = read durations send key count block from rounds w in
            let (messages, after, s') = typed_read r send codec key count block from rounds w in
            DecodesTo (decode_typed r codec key) before entries messages after)
          × (let (entries, before, s) =
                read_group durations send key group consumer count block from rounds w in
              let (messages, after, s') =
                typed_group r send codec key count block group consumer from rounds w in
              DecodesTo decode_group before entries messages after)
    typed_streams-DecodesTo from rounds w =
        (typed_read-DecodesTo from rounds w, typed_group-DecodesTo from rounds w)
