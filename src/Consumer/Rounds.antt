-- ===== src/Consumer/Rounds.antt =====
-- One round of a consumer: when it moves the id from which the next one reads.
use redfx.Common.{String, ◌≡◌, refl, ◌⊎◌, inl, inr, List, [], ◌∷◌, ◌++◌, Option}
use redfx.Js.Number.{Number}
use redfx.Durations.{Durations}
use redfx.Resp.{RespValue}
use redfx.RedisError.{RedisError}
use redfx.Effect.{succeed, Exit-cases, succeeded, failed, died}
use redfx.Run.{Effect}
use redfx.RedisCommand.{RedisCommand}
use redfx.Decode.{RawStreamEntry, decode_stream_reads}
use redfx.Consumer.{entries_of, read_command, read_round}
use redfx.Consumer.Delivery.{last_split}

module _ (durations : Durations) {W : Type 0} (send : RedisCommand → Effect W RedisError RespValue)
    (key : String) (count : Option Number) (block : Option durations.DurationInput) where
  abbrev command : String → RedisCommand
  command = read_command durations send key count block

  -- A round moves the id to that of the last entry it delivers. One that delivers none leaves the id
  -- as it is, be it that the read timed out, failed or could not be decoded: after such a round a
  -- consumer that started at "$" reads from "$" again, the end of the stream at that later time.
  pub read_round_advances :
      (last : String) (w : W)
      → let (r, s') =
          read_round durations send key count block (record { last_id = last; outside = w }) in
        ((before : List RawStreamEntry) × (e : RawStreamEntry) × (r ≡ succeed (before ++ e ∷ []))
          × (s'.last_id ≡ e.id))
        ⊎ ((entries : List RawStreamEntry) → r ≡ succeed entries → entries ≡ [])
          × (s'.last_id ≡ last)
  unfolding read_round
  read_round_advances last w = elim (Exit-cases (send (command last) w).0) [
    | succeeded v answer ↦ elim (Exit-cases (decode_stream_reads v)) [
      | succeeded reads decodes ↦ elim (last_split (entries_of reads)) [
        | inl (empty, no_last) ↦
            inr (
              rw (answer, decodes, no_last) (λ entries same. cc),
              rw (answer, decodes, no_last) refl,
            )
        | inr (before, e, all_read, ends) ↦
            inl (
              before,
              e,
              rw (answer, decodes, ends, all_read) refl,
              rw (answer, decodes, ends) refl,
            )
      ]
      | failed e decodes ↦
          inr (rw (answer, decodes) (λ entries same. cc), rw (answer, decodes) refl)
      | died d decodes ↦ inr (rw (answer, decodes) (λ entries same. cc), rw (answer, decodes) refl)
    ]
    | failed e answer ↦ inr (rw answer (λ entries same. cc), rw answer refl)
    | died d answer ↦ inr (rw answer (λ entries same. cc), rw answer refl)
  ]
