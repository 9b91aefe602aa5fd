-- ===== src/Consumer/Progress.antt =====
-- That a consumer (`streams.read` of packages/core/src/Redis.ts) comes to deliver what the stream holds.
use redfx.Common.{
  ℕ, zero, suc, ◌≤◌, String, ◌≡◌, refl, sym, ap, ◌∙◌, ◌≢◌, ◌⊎◌, inl, inr, List, [], ◌∷◌, ◌++◌,
  Option, some, Bool-cases, length, length-append, arith, if◌then◌else◌,
}
use mathlib.Core.List.{append_assoc, append-nil}
use redfx.Js.Number.{Number}
use redfx.Durations.{Durations}
use redfx.Resp.{RespValue}
use redfx.RedisError.{RedisError}
use redfx.Effect.{Exit, succeed, fail, die, Exit-cases, succeeded, failed, died}
use redfx.Run.{Effect}
use redfx.RedisCommand.{RedisCommand}
use redfx.Decode.{RawStreamEntry, StreamRead, decode_stream_reads}
use redfx.Consumer.{
  entries_of, is_connection_error, after_round, Consumed, Reading, read_command, read_round,
  consume, read,
}
use redfx.Consumer.Server.{StreamServer}
use redfx.Consumer.Delivery.{last_split}

-- Of two lists that begin another, one begins the other.
pub compare_prefix {ℓ} :
    {A : Type ℓ} (xs ys : List A) {a b : List A}
    → xs ++ a ≡ ys ++ b
    → ((c : List A) × (xs ≡ ys ++ c)) ⊎ ((c : List A) × (ys ≡ xs ++ c) × (a ≡ c ++ b))
compare_prefix xs [] same = inl (xs, refl)
compare_prefix [] (y ∷ ys) same = inr (y ∷ ys, refl, same)
compare_prefix (x ∷ xs) (y ∷ ys) {a} {b} same =
    let head : x ≡ y = cc in
    let tail : xs ++ a ≡ ys ++ b = cc in
    elim (compare_prefix xs ys tail) [
      | inl (c, longer) ↦ inl (c, rw (head, longer) refl)
      | inr (c, shorter, left) ↦ inr (c, rw (head, shorter) refl, left)
    ]

module _ (durations : Durations) {W : Type 0} (send : RedisCommand → Effect W RedisError RespValue)
    (key : String) (count : Option Number) (block : Option durations.DurationInput) where
  answered_round : Exit RedisError (List RawStreamEntry) → ℕ → ℕ
  answered_round (succeed entries) later = suc later
  answered_round (fail e) later = if is_connection_error e then later else 0
  answered_round (die d) later = 0

  -- How many of these rounds have an answer, up to the first that ends the stream.
  unfoldable pub answered : ℕ → Reading W → ℕ
  unfolding answered_round
  answered zero s = 0
  answered (suc rounds) s =
      let (r, s') = read_round durations send key count block s in
      answered_round r (answered rounds s')

  module _ (server : StreamServer send (read_command durations send key count block))
      (reads_some : (last : String) (w : W) (v : RespValue) (reads : List StreamRead)
        → last ≢ "$"
        → (send (read_command durations send key count block last) w).0 ≡ succeed v
        → decode_stream_reads v ≡ succeed reads
        → server.behind last w ≢ []
        → entries_of reads ≢ []) where
    open server use {behind, read_lem, behind_entry, behind_grows}

    abbrev command : String → RedisCommand
    command = read_command durations send key count block

    -- These entries are the first behind an id.
    abbrev Holds : List RawStreamEntry → String → W → Type 0
    Holds present x w = (more : List RawStreamEntry) × (behind x w ≡ present ++ more)

    Holds-send :
        (c : RedisCommand) (x : String) (w : W) (present : List RawStreamEntry)
        → Holds present x w
        → Holds present x (send c w).1
    Holds-send c x w present (more, at) = elim (last_split present) [
      | inl (empty, _) ↦ (behind x (send c w).1, rw empty refl)
      | inr (before, e, all, _) ↦
          let split : behind x w ≡ before ++ e ∷ more = at ∙ rw all (simp append_assoc) in
          let (gone, _) = behind_entry x w before e more split in
          (
            behind e.id (send c w).1,
            rw (behind_grows c x w before e (rw gone split), all) (simp append_assoc),
          )
    ]

    -- After an answered round a part of what was behind the id is delivered, one entry at least if
    -- there was any, and the rest is behind the new id.
    data Answered (present : List RawStreamEntry) (entries : List RawStreamEntry) (s : Reading W)
        : Type 0 where
      whole : (more : List RawStreamEntry) → entries ≡ present ++ more → Answered present entries s
      part :
          (left : List RawStreamEntry)
          → present ≡ entries ++ left
          → suc (length left) ≤ length present
          → s.last_id ≢ "$"
          → Holds left s.last_id s.outside
          → Answered present entries s

    abbrev After : List RawStreamEntry → Exit RedisError (List RawStreamEntry) → Reading W → Type 0
    After present (succeed entries) s = Answered present entries s
    After present (fail e) s = (s.last_id ≢ "$") × Holds present s.last_id s.outside
    After present (die d) s = Unit {0}

    empty_or : (xs : List RawStreamEntry) → (xs ≡ []) ⊎ (xs ≢ [])
    empty_or [] = inl refl
    empty_or (x ∷ xs) = inr (λ h. cc)

    Answered-entries :
        (present before : List RawStreamEntry) (e : RawStreamEntry) (last : String) (w : W)
        (rest : List RawStreamEntry)
        → behind last w ≡ before ++ e ∷ rest
        → Holds present last w
        → Answered present (before ++ e ∷ []) (record { last_id = e.id; outside = w })
    Answered-entries present before e last w rest found (more, at) =
        let (gone, concrete) = behind_entry last w before e rest found in
        let one_more = length-append before (e ∷ []) in
        let split : (before ++ e ∷ []) ++ rest ≡ before ++ e ∷ rest = simp append_assoc in
        elim (compare_prefix (before ++ e ∷ []) present (split ∙ sym found ∙ at)) [
          | inl (c, longer) ↦ whole c longer
          | inr (c, shorter, left) ↦
              let lengths = ap length shorter ∙ length-append (before ++ e ∷ []) c in
              part c shorter (omega (arith, lengths, one_more)) concrete (more, rw gone left)
        ]

    Answered-none :
        (present : List RawStreamEntry) (last : String) (w : W) (s : Reading W)
        → Holds present last w
        → (behind last w ≢ [] → ⊥)
        → Answered present [] s
    Answered-none [] last w s at none_there = whole [] refl
    Answered-none (x ∷ present) last w s (more, at) none_there = absurd (none_there (λ h. cc))

    read_round-After :
        (present : List RawStreamEntry) (last : String) (w : W)
        → last ≢ "$"
        → Holds present last w
        → let (r, s') =
            read_round durations send key count block (record { last_id = last; outside = w }) in
          After present r s'
    unfolding read_round
    read_round-After present last w concrete at =
        let at' = Holds-send (command last) last w present at in
        elim (Exit-cases (send (command last) w).0) [
          | succeeded v answer ↦ elim (Exit-cases (decode_stream_reads v)) [
            | succeeded reads decodes ↦
                let (rest, found) = read_lem last w v reads concrete answer decodes in
                elim (last_split (entries_of reads)) [
                  | inl (empty, no_last) ↦
                      rw (answer, decodes, no_last)
                        (Answered-none present last w _ at (λ some_there.
                          reads_some last w v reads concrete answer decodes some_there empty))
                  | inr (before, e, all_read, ends) ↦
                      rw (answer, decodes, ends, all_read)
                        (Answered-entries present before e last _ rest
                          (rw (found, all_read) (simp append_assoc)) at')
                ]
            | failed e decodes ↦ rw (answer, decodes) (concrete, at')
            | died d decodes ↦ rw (answer, decodes) tt
          ]
          | failed e answer ↦ rw answer (concrete, at')
          | died d answer ↦ rw answer tt
        ]

    -- It was given these entries first.
    abbrev Given : List RawStreamEntry → List RawStreamEntry → Type 0
    Given present given = (more : List RawStreamEntry) × (given ≡ present ++ more)

    Given-none : (present given : List RawStreamEntry) → length present ≤ 0 → Given present given
    Given-none [] given few = (given, refl)
    Given-none (x ∷ present) given few = absurd (omega arith)

    after_round-Given :
        (present : List RawStreamEntry) (r : Exit RedisError (List RawStreamEntry)) (s : Reading W)
        (later : Consumed durations send key count block) (k : ℕ)
        → After present r s
        → ((left : List RawStreamEntry)
            → s.last_id ≢ "$"
            → Holds left s.last_id s.outside
            → length left ≤ k
            → Given left later.0)
        → length present ≤ answered_round r k
        → Given present (after_round durations send key count block r s later).0
    unfolding after_round answered_round
    after_round-Given present (succeed entries) s later k (whole more all) on enough =
        (more ++ later.0, rw all (simp append_assoc))
    after_round-Given present (succeed entries) s later k (part left all fewer concrete at) on
          enough =
        let (more, given) = on left concrete at (omega arith) in
        (more, rw (all, given) (simp append_assoc))
    after_round-Given present (fail e) s later k (concrete, at) on enough =
        elim (Bool-cases (is_connection_error e)) [
          | inl lost ↦ rw lost (on present concrete at (rw lost at enough))
          | inr kept ↦ Given-none present _ (rw kept at enough)
        ]
    after_round-Given present (die d) s later k done on enough = Given-none present _ enough

    consume-Given :
        (rounds : ℕ) (present : List RawStreamEntry) (s : Reading W)
        → s.last_id ≢ "$"
        → Holds present s.last_id s.outside
        → length present ≤ answered rounds s
        → Given present (consume durations send key count block rounds s).0
    unfolding consume answered
    consume-Given zero present s concrete at enough = Given-none present _ enough
    consume-Given (suc rounds) present s concrete at enough =
        let (r, s') = read_round durations send key count block s in
        after_round-Given present r s' (consume durations send key count block rounds s')
          (answered rounds s') (read_round-After present s.last_id s.outside concrete at)
          (λ left. consume-Given rounds left s') enough

    -- A consumer that starts at an id other than "$" comes to deliver every entry that is behind it at
    -- the start: of any number of rounds, if as many have an answer as there are entries, the consumer
    -- was given them all, in order and before any other, however many rounds lost their connection in
    -- between. An answered read is supposed to bring an entry if there is one behind its id.
    pub present_is_delivered :
        (seed : String) (rounds : ℕ) (w : W)
        → seed ≢ "$"
        → length (behind seed w) ≤ answered rounds (record { last_id = seed; outside = w })
        → (more : List RawStreamEntry) × ((read durations send key count block
              (some seed)
              rounds
              w).0
            ≡ behind seed w ++ more)
    unfolding read
    present_is_delivered seed rounds w concrete enough =
        consume-Given rounds (behind seed w) (record { last_id = seed; outside = w }) concrete
          ([], rw append-nil refl) enough
