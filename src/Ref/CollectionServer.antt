-- ===== src/Ref/CollectionServer.antt =====
-- What the typed collections rely on of the Redis server: HSET, HGET, SADD, SREM and SISMEMBER of a
-- server that answers, between two expiries. An EXPIRE, which restamps a TTL, may fail.
use redfx.Common.{
  String, ◌≡◌, Bool, List, [], ◌∷◌, Option, some, ◌||◌, ◌&&◌, not, any, ◌==◌, if◌then◌else◌,
}
use redfx.Js.Number.{Number}
use redfx.Durations.{Durations}
use redfx.Effect.{succeed}
use redfx.Redis.Service.{RedisService}

pub record CollectionServer {W : Type 0} {durations : Durations} (r : RedisService W durations)
    : Type 0 where
  -- the field of a hash, and whether a text is in a set
  pub field : String → String → W → Option String
  pub is_member : String → String → W → Bool
  pub write : String → String → String → W → W
  pub insert : String → List String → W → W
  pub withdraw : String → List String → W → W
  -- how many are new, or were there
  pub written : String → String → W → Number
  pub inserted : String → List String → W → Number
  pub withdrawn : String → List String → W → Number
  pub hset_lem :
      (k f v : String) (w : W) → r.hset k ((f, v) ∷ []) w ≡ (succeed (written k f w), write k f v w)
  pub hget_lem : (k f : String) (w : W) → r.hget k f w ≡ (succeed (field k f w), w)
  pub sadd_lem :
      (k : String) (ms : List String) (w : W)
      → r.sadd k ms w ≡ (succeed (inserted k ms w), insert k ms w)
  pub srem_lem :
      (k : String) (ms : List String) (w : W)
      → r.srem k ms w ≡ (succeed (withdrawn k ms w), withdraw k ms w)
  pub sismember_lem : (k m : String) (w : W) → r.sismember k m w ≡ (succeed (is_member k m w), w)
  pub field-write :
      (k f v g : String) (w : W)
      → field k g (write k f v w) ≡ (if f == g then some v else field k g w)
  pub is_member-insert :
      (k m : String) (ms : List String) (w : W)
      → is_member k m (insert k ms w) ≡ any (λ x. x == m) ms || is_member k m w
  pub is_member-withdraw :
      (k m : String) (ms : List String) (w : W)
      → is_member k m (withdraw k ms w) ≡ not (any (λ x. x == m) ms) && is_member k m w
  pub field-expire :
      (k f : String) (d : durations.DurationInput) (w : W)
      → field k f (r.expire k d w).1 ≡ field k f w
  pub is_member-expire :
      (k m : String) (d : durations.DurationInput) (w : W)
      → is_member k m (r.expire k d w).1 ≡ is_member k m w
