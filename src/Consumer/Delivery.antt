-- ===== src/Consumer/Delivery.antt =====
-- What a consumer that starts at an id has been given after some rounds (`streams.read` of
-- packages/core/src/Redis.ts).
use redfx.Common.{
  ℕ, zero, suc, String, ◌≡◌, refl, ap, ◌≢◌, ◌⊎◌, inl, inr, List, [], ◌∷◌, ◌++◌, Option, none, some,
  Bool-cases,
}
use mathlib.Core.List.{append_assoc, append-nil}
use redfx.Js.Number.{Number}
use redfx.Durations.{Durations}
use redfx.Resp.{RespValue}
use redfx.RedisError.{RedisError}
use redfx.Effect.{Exit, succeed, fail, die, Exit-cases, succeeded, failed, died}
use redfx.Run.{Effect}
use redfx.RedisCommand.{RedisCommand}
use redfx.Decode.{RawStreamEntry, decode_stream_reads}
use redfx.Consumer.{
  entries_of, last_of, is_connection_error, after_round, Consumed, Reading, read_command,
  read_round, consume, read,
}
use redfx.Consumer.Server.{StreamServer}

pub last_split {ℓ} :
    {A : Type ℓ} (xs : List A)
    → ((xs ≡ []) × (last_of xs ≡ none))
      ⊎ ((before : List A) × (e : A) × (xs ≡ before ++ e ∷ []) × (last_of xs ≡ some e))
unfolding last_of
last_split [] = inl (refl, refl)
last_split (x ∷ []) = inr ([], x, refl, refl)
last_split (x ∷ y ∷ rest) = elim (last_split (y ∷ rest)) [
  | inl (empty, _) ↦ cc
  | inr (before, e, same, last) ↦ inr (x ∷ before, e, ap (λ r. x ∷ r) same, last)
]

module _ (durations : Durations) {W : Type 0} (send : RedisCommand → Effect W RedisError RespValue)
    (key : String) (count : Option Number) (block : Option durations.DurationInput)
    (server : StreamServer send (read_command durations send key count block)) (seed : String)
    (concrete : seed ≢ "$") where
  open server use {behind, read_lem, behind_entry, behind_grows}

  -- So far the entries `given` were delivered, and `last` is where the next read starts.
  pub data Delivered (given : List RawStreamEntry) (last : String) (w : W) : Type 0 where
    nothing : given ≡ [] → last ≡ seed → Delivered given last w
    up_to :
        (before : List RawStreamEntry) (e : RawStreamEntry)
        → given ≡ before ++ e ∷ []
        → last ≡ e.id
        → behind seed w ≡ before ++ e ∷ behind e.id w
        → Delivered given last w

  Delivered-concrete :
      {given : List RawStreamEntry} {last : String} (w : W) → Delivered given last w → last ≢ "$"
  Delivered-concrete w (nothing _ same) = rw same concrete
  Delivered-concrete w (up_to before e _ same at) =
      rw same (behind_entry seed w before e (behind e.id w) at).1

  Delivered-send :
      {given : List RawStreamEntry} {last : String} (c : RedisCommand) (w : W)
      → Delivered given last w
      → Delivered given last (send c w).1
  Delivered-send c w (nothing none_yet same) = nothing none_yet same
  Delivered-send c w (up_to before e ends same at) =
      up_to before e ends same (behind_grows c seed w before e at)

  -- Entries that were read behind `last` are delivered next.
  Delivered-append :
      {given : List RawStreamEntry} {last : String} (w : W) (before : List RawStreamEntry)
      (e : RawStreamEntry) (rest : List RawStreamEntry)
      → Delivered given last w
      → behind last w ≡ before ++ e ∷ rest
      → Delivered (given ++ (before ++ e ∷ [])) e.id w
  Delivered-append w before e rest (nothing none_yet same) found =
      let gone = (behind_entry _ w before e rest found).0 in
      up_to before e (rw none_yet) refl (rw gone (rw same at found))
  Delivered-append w before e rest (up_to before' e' ends same at) found =
      let gone = (behind_entry _ w before e rest found).0 in
      up_to (before' ++ e' ∷ before) e (rw ends (simp append_assoc)) refl
        (rw (at, rw same at found, gone) (simp append_assoc))

  -- What a round leaves, by its outcome.
  abbrev After : List RawStreamEntry → Exit RedisError (List RawStreamEntry) → Reading W → Type 0
  After given (succeed entries) s = Delivered (given ++ entries) s.last_id s.outside
  After given (fail e) s = Delivered given s.last_id s.outside
  After given (die d) s = Delivered given s.last_id s.outside

  abbrev command : String → RedisCommand
  command = read_command durations send key count block

  read_round-Delivered :
      (given : List RawStreamEntry) (last : String) (w : W)
      → Delivered given last w
      → let (r, s') =
          read_round durations send key count block (record { last_id = last; outside = w }) in
        After given r s'
  unfolding read_round
  read_round-Delivered given last w so_far =
      let sent = Delivered-send (command last) w so_far in
      elim (Exit-cases (send (command last) w).0) [
        | succeeded v answer ↦ elim (Exit-cases (decode_stream_reads v)) [
          | succeeded reads decodes ↦
              let (rest, found) =
                read_lem last w v reads (Delivered-concrete w so_far) answer decodes in
              elim (last_split (entries_of reads)) [
                | inl (empty, no_last) ↦ rw (answer, decodes, no_last, append-nil) sent
                | inr (before, e, all_read, ends) ↦
                    rw (answer, decodes, ends, all_read)
                      (Delivered-append _ before e rest sent
                        (rw (found, all_read) (simp append_assoc)))
              ]
          | failed e decodes ↦ rw (answer, decodes) sent
          | died d decodes ↦ rw (answer, decodes) sent
        ]
        | failed e answer ↦ rw answer sent
        | died d answer ↦ rw answer sent
      ]

  -- What the consumer was given is the stream behind the seed, up to where it stands.
  pub data InOrder (given : List RawStreamEntry) (s : Reading W) : Type 0 where
    nothing_yet : given ≡ [] → s.last_id ≡ seed → InOrder given s
    in_order : behind seed s.outside ≡ given ++ behind s.last_id s.outside → InOrder given s

  InOrder-Delivered :
      (given : List RawStreamEntry) (s : Reading W)
      → Delivered given s.last_id s.outside
      → InOrder given s
  InOrder-Delivered given s (nothing none_yet same) = nothing_yet none_yet same
  InOrder-Delivered given s (up_to before e ends same at) =
      in_order (rw (ends, same, at) (simp append_assoc))

  after_round-Delivered :
      (given : List RawStreamEntry) (r : Exit RedisError (List RawStreamEntry)) (s : Reading W)
      (later : Consumed durations send key count block)
      → After given r s
      → ((given' : List RawStreamEntry)
          → Delivered given' s.last_id s.outside
          → Delivered (given' ++ later.0) later.2.last_id later.2.outside)
      → let (more, _, s') = after_round durations send key count block r s later in
        Delivered (given ++ more) s'.last_id s'.outside
  unfolding after_round
  after_round-Delivered given (succeed entries) s later so_far on =
      rw (← append_assoc) (on (given ++ entries) so_far)
  after_round-Delivered given (fail e) s later so_far on =
      elim (Bool-cases (is_connection_error e)) [
        | inl lost ↦ rw lost (on given so_far)
        | inr kept ↦ rw (kept, append-nil) so_far
      ]
  after_round-Delivered given (die d) s later so_far on = rw append-nil so_far

  consume-Delivered :
      (rounds : ℕ) (given : List RawStreamEntry) (s : Reading W)
      → Delivered given s.last_id s.outside
      → let (more, _, s') = consume durations send key count block rounds s in
        Delivered (given ++ more) s'.last_id s'.outside
  unfolding consume
  consume-Delivered zero given s so_far = rw append-nil so_far
  consume-Delivered (suc rounds) given s so_far =
      let (r, s') = read_round durations send key count block s in
      after_round-Delivered given r s' (consume durations send key count block rounds s')
        (read_round-Delivered given s.last_id s.outside so_far)
        (λ given'. consume-Delivered rounds given' s')

  -- A consumer that starts at an id other than "$", on a stream of which nothing is deleted, is given
  -- the entries of the stream behind that id from the first one on, in their order, each once: over
  -- any number of rounds, with lost connections and empty reads between, what it was given and what
  -- lies behind its last id are the whole of the stream behind the seed; or it was given nothing yet
  -- and is still at the seed.
  pub read-InOrder :
      (rounds : ℕ) (w : W)
      → let (given, _, s) = read durations send key count block (some seed) rounds w in
        InOrder given s
  unfolding read
  read-InOrder rounds w =
      InOrder-Delivered _ _
        (consume-Delivered rounds [] (record { last_id = seed; outside = w }) (nothing refl refl))
