-- ===== src/Connection/Tests.antt =====
-- A pool of one connection that is lost.
use redfx.Common.{refl, String, ◌≡◌, List, [], ◌∷◌}
use redfx.Effect.{succeed, fail}
use redfx.RedisError.{connection_error}
use redfx.RedisCommand.{command}
use redfx.Connection.{ConnectionService}
use redfx.Connection.Pool.{Pool, pooled, with_conn, drop_if_lost}

-- The state says what happened.
abbrev lost : ConnectionService (List String)
lost = record {
  send = λ c w. (fail (connection_error "reset"), c.name ∷ w);
  pipeline = λ cs w. (succeed [], w);
  close = λ w. (succeed tt, w);
}

abbrev one : Pool (List String)
one = record {
  Conn = String;
  service = λ conn. lost;
  get = λ w. (succeed "c1", "get" ∷ w);
  invalidate = λ conn w. "invalidate" ∷ w;
  give_back = λ conn w. "give back" ∷ w;
}

lost_leaves :
    (pooled one).send (command "GET" []) []
    ≡ (fail (connection_error "reset"), "give back" ∷ "invalidate" ∷ "GET" ∷ "get" ∷ [])
unfolding pooled with_conn drop_if_lost command
lost_leaves = refl
