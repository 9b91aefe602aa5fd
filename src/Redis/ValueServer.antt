-- ===== src/Redis/ValueServer.antt =====
-- What the typed keys and the caches rely on of the Redis server.
use redfx.Common.{String, ◌≡◌, [], ◌∷◌, Option, none, some}
use redfx.Js.Number.{Number}
use redfx.Durations.{Durations}
use redfx.Effect.{succeed}
use redfx.RedisCommand.{SetCommandOptions}
use redfx.Redis.Service.{RedisService}

-- GET, SET and DEL of a server that answers, between two expiries.
pub record ValueServer {W : Type 0} {durations : Durations} (r : RedisService W durations)
    : Type 0 where
  pub stored : String → W → Option String
  pub put : String → String → W → W
  pub drop : String → W → W
  pub dropped : String → W → Number
  pub get_lem : (k : String) (w : W) → r.get k w ≡ (succeed (stored k w), w)
  pub set_lem :
      (k v : String) (opts : SetCommandOptions durations.DurationInput) (w : W)
      → r.set k v opts w ≡ (succeed tt, put k v w)
  pub del_lem : (k : String) (w : W) → r.del (k ∷ []) w ≡ (succeed (dropped k w), drop k w)
  pub stored-put : (k v : String) (w : W) → stored k (put k v w) ≡ some v
  pub stored-drop : (k : String) (w : W) → stored k (drop k w) ≡ none
