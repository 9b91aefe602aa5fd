-- ===== src/Adapter/Emitter.antt =====
-- The emitter of `Stream.asyncScoped`, to which both adapters hand the messages of a subscription
-- (`subscribeStream` of packages/bun/src/index.ts and packages/ioredis/src/index.ts).
use redfx.Common.{List, [], ◌∷◌, ◌++◌}
use redfx.RedisError.{RedisError}
use redfx.Effect.{Exit, succeed, fail, die}
use redfx.Connection.{PushMessage}
use redfx.Consumer.{Status, running, stopped, crashed}

-- What a subscription has emitted, and how its stream stands.
pub record Emitter : Type 0 where
  pub emitted : List PushMessage
  pub status : Status

abbrev pub fresh : Emitter
fresh = record { emitted = []; status = running }

-- A stream that has ended emits nothing more.
abbrev pub add_while : Status → PushMessage → List PushMessage → List PushMessage
add_while running m ms = ms ++ m ∷ []
add_while (stopped e) m ms = ms
add_while (crashed d) m ms = ms

abbrev pub first_end : Status → RedisError → Status
first_end running e = stopped e
first_end (stopped e') e = stopped e'
first_end (crashed d) e = crashed d

-- `emit.single` and `emit.fail`
abbrev pub single : PushMessage → Emitter → Emitter
single m s = record { emitted = add_while s.status m s.emitted; status = s.status }

abbrev pub emit_fail : RedisError → Emitter → Emitter
emit_fail e s = record { emitted = s.emitted; status = first_end s.status e }

-- How the stream stands once its client is set up, or could not be.
abbrev pub set_up : Exit RedisError (Unit {0}) → Emitter
set_up (succeed u) = fresh
set_up (fail e) = record { emitted = []; status = stopped e }
set_up (die d) = record { emitted = []; status = crashed d }
