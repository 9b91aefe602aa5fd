-- ===== src/RedisCommand.antt =====
-- packages/core/src/RedisCommand.ts: commands as values, and the parts of their arguments.
pub mod Expiry
mod Tests
use redfx.Common.{
  ℕ, String, Bool, true, false, List, [], ◌∷◌, map, Option, none, some, if◌then◌else◌,
}
use redfx.Js.Number.{Number, nan, infinity, neg_infinity, decimal, ceil, floor, max_of, number_text}
use redfx.Js.Object.{Obj}
use redfx.Effect.{Exit, succeed, die, map_exit, ◌>>=◌}
use redfx.Durations.{Durations}

pub data Arg : Type 0 where
  text : String → Arg
  binary : List ℕ → Arg

pub record RedisCommand : Type 0 where
  pub name : String
  pub args : List Arg

abbrev pub text_args : List String → List Arg
text_args ss = map text ss

unfoldable pub make : String → List Arg → RedisCommand
make name args = record { name = name; args = args }

-- `make(name, ...args)` and `{ name, args }` with texts only
unfoldable pub command : String → List String → RedisCommand
command name args = record { name = name; args = text_args args }

pub record TrimArgs : Type 0 where
  pub max_len : Number
  pub approx : Bool

unfoldable pub trim_args : TrimArgs → List String
trim_args opts =
    if opts.approx
    then "MAXLEN" ∷ "~" ∷ number_text opts.max_len ∷ []
    else "MAXLEN" ∷ number_text opts.max_len ∷ []

-- A thrown `RangeError` is a defect of the effect around it.
unfoldable pub format_score {ℓ} : {E : Type ℓ} → Number → Exit E String
format_score nan = die "RangeError: redfx: a sorted-set score must not be NaN"
format_score infinity = succeed "inf"
format_score neg_infinity = succeed "-inf"
format_score (decimal m s) = succeed (number_text (decimal m s))

-- `Object.entries` of a record, or the array itself; then `.flat()`.
unfoldable pub hash_entries_args : Obj String → List String
hash_entries_args [] = []
hash_entries_args ((field, value) ∷ entries) = field ∷ value ∷ hash_entries_args entries

unfoldable pub zadd_args {ℓ} : {E : Type ℓ} → List (Number × String) → Exit E (List String)
unfolding format_score
zadd_args [] = succeed []
zadd_args ((score, member) ∷ entries) =
    format_score score >>= λ s. map_exit (λ args. s ∷ member ∷ args) (zadd_args entries)

pub record XReadArgs (D : Type 0) : Type 0 where
  pub count : Option Number
  pub block : Option D

pub record SetCommandOptions (D : Type 0) : Type 0 where
  pub ex : Option D
  pub px : Option D
  pub keep_ttl : Bool

module _ (durations : Durations) where
  open durations use {DurationInput, to_millis, to_seconds}

  -- Whole seconds, 1 at least.
  unfoldable pub expiry_seconds : DurationInput → String
  expiry_seconds d = number_text (max_of 1 (ceil (to_seconds d)))

  unfoldable pub expiry_millis : DurationInput → String
  expiry_millis d = number_text (max_of 1 (ceil (to_millis d)))

  -- Whole milliseconds, rounded down, 0 at least.
  unfoldable pub whole_millis : DurationInput → String
  whole_millis d = number_text (max_of 0 (floor (to_millis d)))

  set_expiry : Option DurationInput → Option DurationInput → Bool → List String
  unfolding expiry_seconds expiry_millis
  set_expiry (some ex) px keep_ttl = "EX" ∷ expiry_seconds ex ∷ []
  set_expiry none (some px) keep_ttl = "PX" ∷ expiry_millis px ∷ []
  set_expiry none none true = "KEEPTTL" ∷ []
  set_expiry none none false = []

  unfoldable pub set_args : String → String → SetCommandOptions DurationInput → List String
  unfolding set_expiry
  set_args key value opts = key ∷ value ∷ set_expiry opts.ex opts.px opts.keep_ttl
