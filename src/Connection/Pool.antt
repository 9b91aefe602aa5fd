-- ===== src/Connection/Pool.antt =====
-- `pooledConnection` of packages/core/src/Connection.ts, over a pool of the effect library: commands
-- borrow a connection, and one that fails with a ConnectionError leaves the pool.
use redfx.Effect.{Exit, succeed, fail, die}
use redfx.Run.{Effect, pure}
use redfx.RedisError.{RedisError, connection_error}
use redfx.Connection.{ConnectionService}

-- `Pool.get`, which may fail to make a connection, `Pool.invalidate`, and the return of a connection
-- at the end of its scope.
pub record Pool (W : Type 0) : Type 1 where
  pub Conn : Type 0
  pub service : Conn → ConnectionService W
  pub get : Effect W RedisError Conn
  pub invalidate : Conn → W → W
  pub give_back : Conn → W → W

module _ {W : Type 0} (pool : Pool W) where
  open pool use {Conn, service, invalidate, give_back}

  -- `Effect.tapErrorTag("ConnectionError", …)`
  unfoldable pub drop_if_lost : {A : Type 0} → Conn → Exit RedisError A → W → W
  drop_if_lost conn (fail (connection_error message)) w = invalidate conn w
  drop_if_lost conn r w = w

  used :
      {A : Type 0}
      → (ConnectionService W → Effect W RedisError A)
      → Exit RedisError Conn
      → Effect W RedisError A
  unfolding drop_if_lost
  used f (succeed conn) w =
      let (r, w') = f (service conn) w in (r, give_back conn (drop_if_lost conn r w'))
  used f (fail e) w = (fail e, w)
  used f (die d) w = (die d, w)

  unfoldable pub with_conn :
      {A : Type 0} → (ConnectionService W → Effect W RedisError A) → Effect W RedisError A
  unfolding used
  with_conn f w = let (got, w') = pool.get w in used f got w'

  unfoldable pub pooled : ConnectionService W
  pooled = record {
    send = λ command. with_conn (λ conn. conn.send command);
    pipeline = λ commands. with_conn (λ conn. conn.pipeline commands);
    close = pure tt;
  }
