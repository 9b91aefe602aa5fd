-- ===== src/Consumer/Typed/Kept.antt =====
-- That `consume` of a typed stream (packages/core/src/Redis.ts) keeps the ledger that specifies it.
use redfx.Common.{
  ℕ, zero, suc, String, ◌≡◌, ◌≢◌, refl, sym, List, [], ◌∷◌, ◌++◌, map, Option, Bool-cases, inl, inr,
}
use mathlib.Core.List.{append_assoc, append-nil}
use redfx.Js.Number.{Number}
use redfx.Durations.{Durations}
use redfx.Resp.{RespValue}
use redfx.RedisError.{RedisError}
use redfx.Effect.{Exit, succeed, fail, die, Exit-cases, succeeded, failed, died}
use redfx.Run.{Effect}
use redfx.RedisCommand.{RedisCommand}
use redfx.Redis.Service.{RedisService}
use redfx.Decode.{RawStreamEntry}
use redfx.Ref.{Codec}
use redfx.Consumer.{StatusOf, running, stopped, crashed, is_connection_error}
use redfx.Consumer.Group.{GroupEntry, group_round, to_entry}
use redfx.Consumer.Handled.{ConsumeError, entry_error, consume_entry}
use redfx.Consumer.Typed.{
  Emitted, map_entries, after_entry, after_entries, after_pull, map_rounds, typed_consume,
  when_created,
}
use redfx.Consumer.Typed.Emission.{after_entries-cons, after_entries-none}
use redfx.Consumer.Typed.Watched.{
  Event, Logged, noted, watched, fetched_by, made_by, group_round_lem, ensure_group_lem,
}
use redfx.Consumer.Typed.Ledger.{
  with_failure, with_defect, create, fetch, ack, message_of, Ledger, created, not_created, fetched,
  reconnected, not_fetched, acknowledged, not_acknowledged, not_handled, not_decoded,
}

module _ {W E A : Type 0} {durations : Durations} (r : RedisService (Logged W E A) durations)
    (send : RedisCommand → Effect W RedisError RespValue) (codec : Codec A)
    (key group consumer : String) (count : Option Number) (block : Option durations.DurationInput)
    (handler : A → Effect W E (Unit {0})) (from : Option String) where
  abbrev LedgerOf :
      List (Event E A) → List A → List RawStreamEntry → StatusOf (ConsumeError E) → Type 0
  LedgerOf = Ledger r send codec key group consumer count block handler from

  abbrev message : RawStreamEntry → Exit RedisError A
  message = message_of r send codec key group consumer count block handler from

  abbrev Outcome : Type 0
  Outcome = Emitted (Logged W E A) (ConsumeError E) A

  -- What has been emitted behind these messages keeps the ledger, and nothing that was delivered is
  -- left while the stream goes on.
  abbrev Kept : List A → Outcome → Type 0
  Kept ms (bs, status, (w, log)) =
      (pending : List RawStreamEntry) × LedgerOf log (ms ++ bs) pending status
      × (status ≡ running → pending ≡ [])

  Kept-ended :
      {ms : List A} {es : List RawStreamEntry} {status : StatusOf (ConsumeError E)}
      {log : List (Event E A)} (w : W)
      → LedgerOf log ms es status
      → status ≢ running
      → Kept ms ([], status, (w, log))
  Kept-ended {ms} {es} w ledger ended =
      (es, rw (append-nil ms) ledger, λ goes_on. absurd (ended goes_on))

  abbrev consume_one : GroupEntry (Logged W E A) → Effect (Logged W E A) (ConsumeError E) A
  consume_one = consume_entry r codec key (watched handler)

  abbrev entry : RawStreamEntry → GroupEntry (Logged W E A)
  entry = to_entry durations (noted send) key group consumer count block

  -- What comes of the entries of a round with what is pulled behind them.
  abbrev Then : List RawStreamEntry → Logged W E A → (Logged W E A → Outcome) → Outcome
  Then es s next =
      after_entries entry_error consume_one (map_entries entry_error consume_one (map entry es) s)
        next

  Kept-cons :
      (ms : List A) (a : A) (rest : Outcome)
      → Kept (ms ++ a ∷ []) rest
      → let (bs, status, s) = rest in Kept ms (a ∷ bs, status, s)
  Kept-cons ms a (bs, status, (w, log)) (pending, ledger, all) =
      (pending, rw (sym (append_assoc ms (a ∷ []) bs)) ledger, all)

  -- What the handling of the first of the delivered entries makes of the ledger.
  data Handling (ms : List A) (e : RawStreamEntry) (es : List RawStreamEntry)
      : Exit (ConsumeError E) A × Logged W E A → Type 0 where
    goes_on :
        {w : W} {log : List (Event E A)} (a : A)
        → LedgerOf log (ms ++ a ∷ []) es running
        → Handling ms e es (succeed a, (w, log))
    fails :
        {w : W} {log : List (Event E A)} (err : ConsumeError E)
        → LedgerOf log ms (e ∷ es) (stopped err)
        → Handling ms e es (fail err, (w, log))
    dies :
        {w : W} {log : List (Event E A)} (d : String)
        → LedgerOf log ms (e ∷ es) (crashed d)
        → Handling ms e es (die d, (w, log))

  consume_one-Handling :
      (ms : List A) (e : RawStreamEntry) (es : List RawStreamEntry) (w : W) (log : List (Event E A))
      → LedgerOf log ms (e ∷ es) running
      → Handling ms e es (consume_one (entry e) (w, log))
  unfolding consume_entry to_entry
  consume_one-Handling ms e es w log ledger = elim (Exit-cases (message e)) [
    | succeeded a decoded ↦ elim (Exit-cases (handler a w).0) [
      | succeeded u done ↦
          elim (Exit-cases
            (send (ack r send codec key group consumer count block handler from e)
              (handler a w).1).0) [
                | succeeded v answer ↦
                    rw (decoded, done, answer) (goes_on a (acknowledged v ledger decoded))
                | failed err answer ↦
                    rw (decoded, done, answer)
                      (fails _ (not_acknowledged _ ledger decoded (with_failure err)))
                | died d answer ↦
                    rw (decoded, done, answer)
                      (dies d (not_acknowledged _ ledger decoded (with_defect d)))
              ]
      | failed err lost ↦
          rw (decoded, lost) (fails _ (not_handled _ ledger decoded (with_failure err)))
      | died d lost ↦ rw (decoded, lost) (dies d (not_handled _ ledger decoded (with_defect d)))
    ]
    | failed err lost ↦ rw lost (fails _ (not_decoded ledger (rw lost (with_failure err))))
    | died d lost ↦ rw lost (dies d (not_decoded ledger (rw lost (with_defect d))))
  ]

  abbrev Keeps : (Logged W E A → Outcome) → Type 0
  Keeps next =
      (ms : List A) (w : W) (log : List (Event E A))
      → LedgerOf log ms [] running
      → Kept ms (next (w, log))

  abbrev Put : Exit (ConsumeError E) A × Logged W E A → (Logged W E A → Outcome) → Outcome
  Put (result, s) rest = after_entry entry_error consume_one result s rest

  Put-Kept :
      (ms : List A) (e : RawStreamEntry) (es : List RawStreamEntry)
      (handled : Exit (ConsumeError E) A × Logged W E A) (next : Logged W E A → Outcome)
      → ((ms' : List A) (w : W) (log : List (Event E A))
          → LedgerOf log ms' es running
          → Kept ms' (Then es (w, log) next))
      → Handling ms e es handled
      → Kept ms (
          after_entries entry_error consume_one
            (Put handled (map_entries entry_error consume_one (map entry es)))
            next)
  unfolding after_entry
  Put-Kept ms e es handled next rest (goes_on {w} {log} a ledger) =
      rw
        (after_entries-cons entry_error consume_one a
          (map_entries entry_error consume_one (map entry es) (w, log)) next)
        (Kept-cons ms a (Then es (w, log) next) (rest _ w log ledger))
  Put-Kept ms e es handled next rest (fails {w} {log} err ledger) =
      rw ((after_entries-none entry_error consume_one (w, log) next).1 err)
        (Kept-ended w ledger (λ h. cc))
  Put-Kept ms e es handled next rest (dies {w} {log} d ledger) =
      rw ((after_entries-none entry_error consume_one (w, log) next).2 d)
        (Kept-ended w ledger (λ h. cc))

  Then-Kept :
      (es : List RawStreamEntry) (next : Logged W E A → Outcome)
      → Keeps next
      → (ms : List A) (w : W) (log : List (Event E A)) → LedgerOf log ms es running
      → Kept ms (Then es (w, log) next)
  unfolding map_entries
  Then-Kept [] next keeps ms w log ledger =
      rw ((after_entries-none entry_error consume_one (w, log) next).0) (keeps ms w log ledger)
  Then-Kept (e ∷ es) next keeps ms w log ledger =
      Put-Kept ms e es _ next (Then-Kept es next keeps) (consume_one-Handling ms e es w log ledger)

  abbrev pull : Effect (Logged W E A) RedisError (List (GroupEntry (Logged W E A)))
  pull = group_round durations (noted send) key group consumer count block

  rounds-Kept : (rounds : ℕ) → Keeps (map_rounds entry_error consume_one pull rounds)
  unfolding map_rounds after_pull
  rounds-Kept zero ms w log ledger = ([], rw (append-nil ms) ledger, λ _. refl)
  rounds-Kept (suc rounds) ms w log ledger =
      let (reply, w') = send (fetch r send codec key group consumer count block handler from) w in
      elim (Exit-cases (fetched_by reply)) [
        | succeeded es some_read ↦
            rw (group_round_lem durations send key group consumer count block w log, some_read)
              (Then-Kept es _ (rounds-Kept rounds) ms w' _ (fetched reply ledger some_read))
        | failed e lost ↦ elim (Bool-cases (is_connection_error e)) [
          | inl retried ↦
              rw
                (group_round_lem durations send key group consumer count block w log, lost, retried)
                (rounds-Kept rounds ms w' _ (reconnected reply ledger lost retried))
          | inr ended ↦
              rw (group_round_lem durations send key group consumer count block w log, lost, ended)
                (Kept-ended w' (not_fetched reply ledger (λ e' same. cc) (rw lost (with_failure e)))
                  (λ h. cc))
        ]
        | died d lost ↦
            rw (group_round_lem durations send key group consumer count block w log, lost)
              (Kept-ended w' (not_fetched reply ledger (λ e' same. cc) (rw lost (with_defect d)))
                (λ h. cc))
      ]

  -- Whatever the server answers and the handler does, over any number of rounds, consume keeps the
  -- ledger: the group is created first; a message is emitted behind the acknowledgement of its entry,
  -- and the entry is acknowledged directly behind a handler that succeeded on it; the entries are
  -- handled in the order they were delivered, each once, and the first that does not decode, is not
  -- handled or not acknowledged ends the stream with its error. As long as the stream goes on, it has
  -- acknowledged every entry that it was given.
  pub typed_consume-Keeps :
      (rounds : ℕ) (w : W)
      → let (ms, status, (w', log)) =
          typed_consume r
            (noted send)
            codec
            key
            count
            block
            group
            consumer
            (watched handler)
            from
            rounds
            (w, []) in
        (pending : List RawStreamEntry) × Ledger r send codec key group consumer count block handler
          from log ms pending status
        × (status ≡ running → pending ≡ [])
  unfolding typed_consume when_created
  typed_consume-Keeps rounds w =
      let (reply, w') = send (create r send codec key group consumer count block handler from) w in
      elim (Exit-cases (made_by reply)) [
        | succeeded u same ↦
            rw (ensure_group_lem durations send key group consumer count block from w, same)
              (rounds-Kept rounds [] w' _ (created reply same))
        | failed e same ↦
            rw (ensure_group_lem durations send key group consumer count block from w, same)
              (Kept-ended w' (not_created reply (rw same (with_failure e))) (λ h. cc))
        | died d same ↦
            rw (ensure_group_lem durations send key group consumer count block from w, same)
              (Kept-ended w' (not_created reply (rw same (with_defect d))) (λ h. cc))
      ]
