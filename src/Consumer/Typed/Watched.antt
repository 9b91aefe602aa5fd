-- ===== src/Consumer/Typed/Watched.antt =====
-- A consumer whose commands and handler write down what happens: what a round of a group and the
-- creation of the group (packages/core/src/Redis.ts) write.
use redfx.Common.{
  Bool-cases, inl, inr, if◌then◌else◌, map, String, ◌≡◌, refl, List, [], ◌∷◌, Option, some, true,
}
use redfx.Js.Number.{Number}
use redfx.Durations.{Durations}
use redfx.Resp.{RespValue}
use redfx.RedisError.{RedisError, decode_error}
use redfx.Effect.{
  Exit, succeed, fail, die, map_exit, map_error, ◌>>=◌, Exit-cases, succeeded, failed, died,
}
use redfx.Run.{Effect}
use redfx.RedisCommand.{RedisCommand}
use redfx.Cmd.Streams as Cmd
use redfx.Cmd.Streams.{or_else}
use redfx.Decode.{RawStreamEntry, decode_stream_reads}
use redfx.Consumer.{is_busy_group, entries_of, ensure_group}
use redfx.Consumer.Group.{group_command, group_round, to_entry}

-- A command that was sent, with its reply, and a message on which the handler ran.
pub data Event (E A : Type 0) : Type 0 where
  sent : RedisCommand → Exit RedisError RespValue → Event E A
  ran : A → Exit E (Unit {0}) → Event E A

-- The outside with what has happened, the last event first.
abbrev pub Logged : Type 0 → Type 0 → Type 0 → Type 0
Logged W E A = W × List (Event E A)

module _ {W E A : Type 0} where
  abbrev pub noted :
      (RedisCommand → Effect W RedisError RespValue)
      → RedisCommand
      → Effect (Logged W E A) RedisError RespValue
  noted send c (w, log) = let (r, w') = send c w in (r, (w', sent c r ∷ log))

  abbrev pub watched : (A → Effect W E (Unit {0})) → A → Effect (Logged W E A) E (Unit {0})
  watched handler a (w, log) = let (r, w') = handler a w in (r, (w', ran a r ∷ log))

-- The entries that a reply to XREADGROUP delivers, or why it delivers none.
abbrev pub fetched_by : Exit RedisError RespValue → Exit RedisError (List RawStreamEntry)
fetched_by reply =
    map_exit entries_of (reply >>= λ v. map_error decode_error (decode_stream_reads v))

-- What the reply to XGROUP CREATE says: a group that is there already is no failure.
abbrev pub made_by : Exit RedisError RespValue → Exit RedisError (Unit {0})
made_by (succeed v) = succeed tt
made_by (fail e) = if is_busy_group e then succeed tt else fail e
made_by (die d) = die d

module _ {W E A : Type 0} (durations : Durations)
    (send : RedisCommand → Effect W RedisError RespValue) (key group consumer : String)
    (count : Option Number) (block : Option durations.DurationInput) where
  abbrev sending : RedisCommand → Effect (Logged W E A) RedisError RespValue
  sending = noted send

  -- A round sends the one command, and makes its reply into entries.
  pub group_round_lem :
      (w : W) (log : List (Event E A))
      → let fetch = group_command durations send key group consumer count block in
        let (reply, w') = send fetch w in
        group_round durations sending key group consumer count block (w, log) ≡ (
          map_exit
              (map (to_entry durations sending key group consumer count block))
              (fetched_by reply),
          (w', sent fetch reply ∷ log),
        )
  unfolding group_round
  group_round_lem w log =
      elim (Exit-cases (send (group_command durations send key group consumer count block) w).0) [
        | succeeded v answer ↦ elim (Exit-cases (decode_stream_reads v)) [
          | succeeded reads decodes ↦ rw (answer, decodes) refl
          | failed e decodes ↦ rw (answer, decodes) refl
          | died d decodes ↦ rw (answer, decodes) refl
        ]
        | failed e answer ↦ rw answer refl
        | died d answer ↦ rw answer refl
      ]

  pub ensure_group_lem :
      (from : Option String) (w : W)
      → let create = Cmd.xgroup_create key group (some (or_else from "$")) true in
        let (reply, w') = send create w in
        ensure_group durations sending key group from (w, [])
        ≡ (made_by reply, (w', sent create reply ∷ []))
  unfolding ensure_group
  ensure_group_lem from w =
      elim (Exit-cases (send (Cmd.xgroup_create key group (some (or_else from "$")) true) w).0) [
        | succeeded v answer ↦ rw answer refl
        | failed e answer ↦ elim (Bool-cases (is_busy_group e)) [
          | inl busy ↦ rw (answer, busy) refl
          | inr other ↦ rw (answer, other) refl
        ]
        | died d answer ↦ rw answer refl
      ]
