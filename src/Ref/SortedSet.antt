-- ===== src/Ref/SortedSet.antt =====
-- `Redis.sortedSet`: a sorted set whose members are encoded values (Redis.ts).
use redfx.Common.{String, List, [], ◌∷◌, Option}
use redfx.Js.Number.{Number, of_ℕ}
use redfx.Durations.{Durations}
use redfx.RedisError.{RedisError}
use redfx.Effect.{Exit, map_exit, for_each}
use redfx.Run.{Effect, pure, lift, ◌>>=◌, ◌>>◌}
use redfx.Redis.Service.{RedisService}
use redfx.Ref.Options.{Codec, to_decode_error, RefOptions, WriteOptions, restamp_ttl}

module _ {W A : Type 0} {durations : Durations} (r : RedisService W durations) (codec : Codec A)
    (options : RefOptions durations.DurationInput) (key : String) where
  abbrev encoded : A → Effect W RedisError String
  encoded member = lift (to_decode_error (codec.encode member))

  abbrev decode_member : String → Exit RedisError A
  decode_member m = to_decode_error (codec.decode m)

  unfoldable pub add :
      A → Number → WriteOptions durations.DurationInput → Effect W RedisError Number
  add member score opts = do
    m ← encoded member
    added ← r.zadd key ((score, m) ∷ [])
    restamp_ttl r key options.ttl opts
    pure added

  unfoldable pub remove : List A → Effect W RedisError Number
  remove [] = pure (of_ℕ 0)
  remove (m ∷ members) =
      lift (for_each (λ v. to_decode_error (codec.encode v)) (m ∷ members)) >>= r.zrem key

  unfoldable pub score : A → Effect W RedisError (Option Number)
  score member = encoded member >>= r.zscore key

  unfoldable pub rank : A → Effect W RedisError (Option Number)
  rank member = encoded member >>= r.zrank key

  unfoldable pub incr_by :
      A → Number → WriteOptions durations.DurationInput → Effect W RedisError Number
  incr_by member by opts = do
    m ← encoded member
    total ← r.zincr_by key by m
    restamp_ttl r key options.ttl opts
    pure total

  unfoldable pub range : Number → Number → Effect W RedisError (List A)
  range start stop = r.zrange key start stop >>= λ ms. lift (for_each decode_member ms)

  abbrev decode_scored_member : String × Number → Exit RedisError (A × Number)
  decode_scored_member (m, s) = map_exit (λ a. (a, s)) (decode_member m)

  unfoldable pub range_with_scores : Number → Number → Effect W RedisError (List (A × Number))
  range_with_scores start stop =
      r.zrange_with_scores key start stop >>= λ pairs. lift (for_each decode_scored_member pairs)
