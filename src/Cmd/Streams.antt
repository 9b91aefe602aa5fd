-- ===== src/Cmd/Streams.antt =====
-- The builders for streams (RedisCommand.ts).
use redfx.Common.{String, Bool, List, [], ◌∷◌, ◌++◌, map, Option, none, some, if◌then◌else◌}
use redfx.Js.Number.{Number, number_text}
use redfx.Js.Object.{Obj}
use redfx.Durations.{Durations}
use redfx.RedisCommand.{
  RedisCommand, command, TrimArgs, trim_args, hash_entries_args, XReadArgs, whole_millis,
}

-- `x ?? y`
abbrev pub or_else {ℓ} : {A : Type ℓ} → Option A → A → A
or_else none y = y
or_else (some x) y = x

pub record XAddOptions : Type 0 where
  pub id : Option String
  pub max_len : Option Number
  pub approx : Bool

trim_part : Option Number → Bool → List String
trim_part none approx = []
trim_part (some n) approx = trim_args (record { max_len = n; approx = approx })

unfoldable pub xadd : String → Obj String → XAddOptions → RedisCommand
unfolding trim_part
xadd key fields opts =
    command "XADD"
      (key ∷ (trim_part opts.max_len opts.approx ++ or_else opts.id "*" ∷ hash_entries_args fields))

unfoldable pub xlen : String → RedisCommand
xlen key = command "XLEN" (key ∷ [])

unfoldable pub count_part : Option Number → List String
count_part none = []
count_part (some n) = "COUNT" ∷ number_text n ∷ []

unfoldable pub xrange : String → String → String → Option Number → RedisCommand
unfolding count_part
xrange key start end count = command "XRANGE" (key ∷ start ∷ end ∷ count_part count)

-- XREVRANGE takes the higher id first.
unfoldable pub xrevrange : String → String → String → Option Number → RedisCommand
unfolding count_part
xrevrange key start end count = command "XREVRANGE" (key ∷ end ∷ start ∷ count_part count)

unfoldable pub xdel : String → List String → RedisCommand
xdel key ids = command "XDEL" (key ∷ ids)

unfoldable pub xtrim : String → TrimArgs → RedisCommand
xtrim key opts = command "XTRIM" (key ∷ trim_args opts)

unfoldable pub xgroup_create : String → String → Option String → Bool → RedisCommand
xgroup_create key group from mk_stream =
    command "XGROUP"
      ("CREATE" ∷ key ∷ group ∷ or_else from "$" ∷ (if mk_stream then "MKSTREAM" ∷ [] else []))

unfoldable pub xack : String → String → List String → RedisCommand
xack key group ids = command "XACK" (key ∷ group ∷ ids)

unfoldable pub xpending : String → String → RedisCommand
xpending key group = command "XPENDING" (key ∷ group ∷ [])

unfoldable pub xinfo_stream : String → RedisCommand
xinfo_stream key = command "XINFO" ("STREAM" ∷ key ∷ [])

unfoldable pub xinfo_groups : String → RedisCommand
xinfo_groups key = command "XINFO" ("GROUPS" ∷ key ∷ [])

-- The keys, then the ids, of `streams`.
unfoldable pub stream_args : List (String × String) → List String
stream_args streams = "STREAMS" ∷ (map (λ p. p.0) streams ++ map (λ p. p.1) streams)

pub record PendingOptions (D : Type 0) : Type 0 where
  pub start : Option String
  pub end : Option String
  pub count : Number
  pub consumer : Option String
  pub idle : Option D

unfoldable pub consumer_part : Option String → List String
consumer_part none = []
consumer_part (some consumer) = consumer ∷ []

module _ (durations : Durations) where
  open durations use {DurationInput}

  unfoldable pub block_part : Option DurationInput → List String
  block_part none = []
  block_part (some block) = "BLOCK" ∷ whole_millis durations block ∷ []

  unfoldable pub idle_part : Option DurationInput → List String
  idle_part none = []
  idle_part (some idle) = "IDLE" ∷ whole_millis durations idle ∷ []

  unfoldable pub xread : List (String × String) → XReadArgs DurationInput → RedisCommand
  unfolding count_part block_part
  xread streams opts =
      command "XREAD" (count_part opts.count ++ (block_part opts.block ++ stream_args streams))

  unfoldable pub xread_group :
      String → String → List (String × String) → XReadArgs DurationInput → Bool → RedisCommand
  unfolding count_part block_part
  xread_group group consumer streams opts no_ack = command "XREADGROUP" (
      "GROUP"
      ∷ group
      ∷ consumer
      ∷ (count_part opts.count
          ++ (block_part opts.block
              ++ ((if no_ack then "NOACK" ∷ [] else []) ++ stream_args streams))))

  unfoldable pub xpending_extended : String → String → PendingOptions DurationInput → RedisCommand
  unfolding idle_part consumer_part
  xpending_extended key group opts = command "XPENDING" (
      key
      ∷ group
      ∷ (idle_part opts.idle
          ++ or_else opts.start "-"
            ∷ or_else opts.end "+"
            ∷ number_text opts.count
            ∷ consumer_part opts.consumer))

  unfoldable pub xclaim : String → String → String → DurationInput → List String → RedisCommand
  xclaim key group consumer min_idle ids =
      command "XCLAIM" (key ∷ group ∷ consumer ∷ whole_millis durations min_idle ∷ ids)

  unfoldable pub xautoclaim :
      String → String → String → DurationInput → Option String → Option Number → RedisCommand
  unfolding count_part
  xautoclaim key group consumer min_idle start count = command "XAUTOCLAIM" (
      key
      ∷ group
      ∷ consumer
      ∷ whole_millis durations min_idle
      ∷ or_else start "0-0"
      ∷ count_part count)
