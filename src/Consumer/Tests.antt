-- ===== src/Consumer/Tests.antt =====
-- A consumer of a stream of two entries, over a connection whose first read fails.
use redfx.Common.{
  ◌⊎◌, ℕ, zero, suc, String, ◌≡◌, refl, ap, ◌≢◌, List, [], ◌∷◌, ◌++◌, none, some, if◌then◌else◌,
  ◌==◌, Bool-cases, inl, inr, arith,
}
use redfx.Js.Object.{assign_all, define}
use redfx.Resp.{RespValue, str, null, array}
use redfx.RedisError.{RedisError, connection_error}
use redfx.Effect.{for_each, succeed, fail}
use redfx.Run.{Effect}
use redfx.Cmd.Streams.{xread, stream_args}
use redfx.RedisCommand.{command, Arg, text, RedisCommand}
use redfx.Durations.Whole.{whole}
use redfx.Decode.{
  RawStreamEntry, StreamRead, decode_stream_reads, decode_string, decode_entries, decode_array,
  decode_entry, decode_record,
}
use redfx.Consumer.{
  entries_of, last_of, read_command, read, read_round, consume, is_connection_error, running,
}
use redfx.Consumer.Server.{StreamServer}
use redfx.Consumer.Rounds.{read_round_advances}
use redfx.Consumer.Delivery.{InOrder, read-InOrder}
use redfx.Consumer.Progress.{answered, present_is_delivered}

abbrev first : RawStreamEntry
first = record { id = "1-0"; fields = ("a", "x") ∷ [] }

abbrev second : RawStreamEntry
second = record { id = "2-0"; fields = ("a", "y") ∷ [] }

abbrev reads_reply : String → String → RespValue
reads_reply id value = array (
    array (str "s" ∷ array (array (str id ∷ array (str "a" ∷ str value ∷ []) ∷ []) ∷ []) ∷ []) ∷ [])

abbrev reply_behind : String → RespValue
reply_behind id =
    if id == "0-0"
    then reads_reply "1-0" "x"
    else if id == "1-0"
    then reads_reply "2-0" "y"
    else null

abbrev stream_behind : String → List RawStreamEntry
stream_behind id =
    if id == "0-0" then first ∷ second ∷ [] else if id == "1-0" then second ∷ [] else []

-- The id is the last of five arguments.
abbrev id_of : List Arg → String
id_of (_ ∷ _ ∷ _ ∷ _ ∷ text id ∷ []) = id
id_of _ = ""

-- The state counts the commands.
abbrev two_entries : RedisCommand → Effect ℕ RedisError RespValue
two_entries c zero = (fail (connection_error "reset by peer"), 1)
two_entries c (suc n) = (succeed (reply_behind (id_of c.args)), suc (suc n))

abbrev command_of : String → RedisCommand
command_of = read_command whole two_entries "s" none none

both_are_read :
    let (given, status, s) = read whole two_entries "s" none none (some "0-0") 4 0 in
    (given ≡ first ∷ second ∷ []) × (status ≡ running) × (s.last_id ≡ "2-0") × (s.outside ≡ 4)
unfolding read consume read_round is_connection_error decode_stream_reads xread command stream_args
    for_each decode_string decode_entries decode_array decode_entry decode_record last_of entries_of
    assign_all define
both_are_read = (refl, refl, refl, refl)

reply_decodes :
    (id : String)
    → (reads : List StreamRead) × (decode_stream_reads (reply_behind id) ≡ succeed reads)
      × (rest : List RawStreamEntry) × (stream_behind id ≡ entries_of reads ++ rest)
unfolding decode_stream_reads entries_of for_each decode_string decode_entries decode_array
    decode_entry decode_record assign_all define
reply_decodes id = elim (Bool-cases (id == "0-0")) [
  | inl zeroth ↦ rw zeroth (("s", first ∷ []) ∷ [], refl, second ∷ [], refl)
  | inr not_zeroth ↦ elim (Bool-cases (id == "1-0")) [
    | inl one ↦ rw (not_zeroth, one) (("s", second ∷ []) ∷ [], refl, [], refl)
    | inr not_one ↦ rw (not_zeroth, not_one) ([], refl, [], refl)
  ]
]

behind_two :
    (before : List RawStreamEntry) (e : RawStreamEntry) (rest : List RawStreamEntry)
    → first ∷ second ∷ [] ≡ before ++ e ∷ rest
    → (stream_behind e.id ≡ rest) × (e.id ≢ "$")
behind_two [] e rest same =
    let head : first ≡ e = ground arith in
    let tail : second ∷ [] ≡ rest = ground arith in rw (← head, ← tail) (refl, λ h. cc)
behind_two (x ∷ []) e rest same =
    let head : second ≡ e = ground arith in
    let tail : [] ≡ rest = ground arith in rw (← head, ← tail) (refl, λ h. cc)
behind_two (x ∷ y ∷ []) e rest same = ground arith
behind_two (x ∷ y ∷ z ∷ more) e rest same = ground arith

nothing_behind :
    (before : List RawStreamEntry) (e : RawStreamEntry) (rest : List RawStreamEntry)
    → [] ≡ before ++ e ∷ rest
    → (stream_behind e.id ≡ rest) × (e.id ≢ "$")
nothing_behind [] e rest same = cc
nothing_behind (x ∷ before) e rest same = cc

behind_one :
    (before : List RawStreamEntry) (e : RawStreamEntry) (rest : List RawStreamEntry)
    → second ∷ [] ≡ before ++ e ∷ rest
    → (stream_behind e.id ≡ rest) × (e.id ≢ "$")
behind_one before e rest same = behind_two (first ∷ before) e rest (ap (λ r. first ∷ r) same)

behind_stream :
    (x : String) (w : ℕ) (before : List RawStreamEntry) (e : RawStreamEntry)
    (rest : List RawStreamEntry)
    → stream_behind x ≡ before ++ e ∷ rest
    → (stream_behind e.id ≡ rest) × (e.id ≢ "$")
behind_stream x w before e rest = elim (Bool-cases (x == "0-0")) [
  | inl zeroth ↦ rw zeroth (behind_two before e rest)
  | inr not_zeroth ↦ elim (Bool-cases (x == "1-0")) [
    | inl one ↦ rw (not_zeroth, one) (behind_one before e rest)
    | inr not_one ↦ rw (not_zeroth, not_one) (nothing_behind before e rest)
  ]
]

reads_are_behind :
    (last : String) (w : ℕ) (v : RespValue) (reads : List StreamRead)
    → last ≢ "$"
    → (two_entries (command_of last) w).0 ≡ succeed v
    → decode_stream_reads v ≡ succeed reads
    → (rest : List RawStreamEntry) × (stream_behind last ≡ entries_of reads ++ rest)
unfolding xread command stream_args
reads_are_behind last zero v reads concrete answer decodes = cc
reads_are_behind last (suc w) v reads concrete answer decodes =
    let (reads', decodes', rest, all) = reply_decodes last in
    let same : reads' ≡ reads = cc in (rest, rw (← same) all)

two_entries_server : StreamServer two_entries command_of
two_entries_server = record {
  behind = λ id w. stream_behind id;
  read_lem = reads_are_behind;
  behind_entry = behind_stream;
  behind_grows = λ c x w before e at. at;
}

seed_is_concrete : ◌≢◌ {A = String} "0-0" "$"
seed_is_concrete h = cc

read-InOrder_example :
    let (given, _, s) = read whole two_entries "s" none none (some "0-0") 4 0 in
    InOrder whole two_entries "s" none none two_entries_server "0-0" seed_is_concrete given s
read-InOrder_example =
    read-InOrder whole two_entries "s" none none two_entries_server "0-0" seed_is_concrete 4 0

read_round_advances_example :
    let (r, s') =
      read_round whole two_entries "s" none none (record { last_id = "0-0"; outside = 1 }) in
    ((before : List RawStreamEntry) × (e : RawStreamEntry) × (r ≡ succeed (before ++ e ∷ []))
      × (s'.last_id ≡ e.id))
    ⊎ ((entries : List RawStreamEntry) → r ≡ succeed entries → entries ≡ []) × (s'.last_id ≡ "0-0")
read_round_advances_example = read_round_advances whole two_entries "s" none none "0-0" 1

reply_brings :
    (id : String)
    → stream_behind id ≢ []
    → (reads : List StreamRead) × (decode_stream_reads (reply_behind id) ≡ succeed reads)
      × (entries_of reads ≢ [])
unfolding decode_stream_reads entries_of for_each decode_string decode_entries decode_array
    decode_entry decode_record assign_all define
reply_brings id = elim (Bool-cases (id == "0-0")) [
  | inl zeroth ↦ rw zeroth (λ _. (("s", first ∷ []) ∷ [], refl, λ h. cc))
  | inr not_zeroth ↦ elim (Bool-cases (id == "1-0")) [
    | inl one ↦ rw (not_zeroth, one) (λ _. (("s", second ∷ []) ∷ [], refl, λ h. cc))
    | inr not_one ↦ rw (not_zeroth, not_one) (λ some_there. absurd (some_there refl))
  ]
]

some_are_read :
    (last : String) (w : ℕ) (v : RespValue) (reads : List StreamRead)
    → last ≢ "$"
    → (two_entries (command_of last) w).0 ≡ succeed v
    → decode_stream_reads v ≡ succeed reads
    → stream_behind last ≢ []
    → entries_of reads ≢ []
unfolding xread command stream_args
some_are_read last zero v reads concrete answer decodes some_there none_read = cc
some_are_read last (suc w) v reads concrete answer decodes some_there none_read =
    let (reads', decodes', brings) = reply_brings last some_there in
    let same : reads' ≡ reads = cc in brings (rw same none_read)

present_is_delivered_example :
    (more : List RawStreamEntry) × ((read whole two_entries "s" none none (some "0-0") 4 0).0
      ≡ (first ∷ second ∷ []) ++ more)
unfolding answered read_round is_connection_error decode_stream_reads xread command stream_args
    for_each decode_string decode_entries decode_array decode_entry decode_record last_of entries_of
    assign_all define two_entries_server
present_is_delivered_example =
    present_is_delivered whole two_entries "s" none none two_entries_server some_are_read "0-0" 4 0
      seed_is_concrete (omega arith)
