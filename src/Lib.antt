-- ===== src/Lib.antt =====
-- A model of redfx, a typed Redis client on the effect library, and theorems about it. The
-- modelled code is that of packages/core/src; where a path names no package, it is of this one.
--
-- How the parts interact. A command is a value, built by packages/core/src/RedisCommand.ts
-- (RedisCommand.antt, and Cmd.antt for its `Cmd`). A connection sends it (Connection.antt: the
-- port and the pool of Connection.ts, and the deadlines of Redis.ts) and answers with a reply
-- value (Resp.antt, RespValue.ts), which internal/decode.ts turns into a typed value or a
-- DecodeError (Decode.antt). Redis.ts joins these: its service `makeRedis` is Redis.antt (Keys,
-- Collections and Streams for its operations, Service for its interface), its typed families of
-- keys (`ref`, `setOf`, `sortedSet`, `hashOf`, `stream`) are Ref.antt, its Lua scripts
-- (`Redis.script`) Script.antt, and its consumers (`streams.read`, `streams.readGroup` a typed
-- stream's `read`, `group` and `consume`, and `subscribe`) Consumer.antt. Above the service stand
-- the rate limiter (RateLimit.ts, RateLimit.antt) and the caches (Cache.ts, Cache.antt).
-- RedisError.antt has the errors of RedisError.ts. Below the port stand the adapters,
-- packages/bun/src/index.ts and packages/ioredis/src/index.ts (Adapter.antt): how they convert
-- arguments, results and errors, with which settings they make their clients, and what their
-- subscriptions emit. Redis.Layer joins all of it as `layerConnection` does.
--
-- State and operations. An effect with error E and value A is a function `W → Exit E A × W`
-- (Run.antt) over a state W of everything outside: the server, the connections, the clock. An
-- Exit (Effect.antt) is a success, a failure or a defect, a thrown value such as the RangeError
-- of `formatScore`. A closure's or a Ref's variable is a field beside W: `cachedSha` in
-- Script.Cached, `lastIdRef` in Consumer.Reading. Names keep the source's words in lower case:
-- `decodeStreamReads` is `decode_stream_reads`, `tryRound` is `try_round`. What a function
-- returns on a bad argument or reply, with its message, is part of its definition.
--
-- Values of JavaScript (Js.antt). A text is a sequence of code points. A number is NaN, an
-- infinity or a decimal fraction of any size and precision: rounding to 53 bits is not modelled,
-- nor the exponent form in which very large and very small numbers print. A plain object is the
-- list of its own properties in the order of Object.entries, in which array indices come first;
-- assigning to `__proto__` adds no property, and Object.fromEntries does. UTF-8 decoding replaces
-- what is malformed.
--
-- Parameters. The effect library's durations (Durations.antt, with the laws that are used;
-- Durations.Whole is an instance), its schemas (Ref.Codec), its Cache as the L1 of a tiered cache
-- (Cache.Tiered.Memory), the clock, the sleep and the random tokens (Cache.Options.Runtime), and
-- the Redis server, always an argument: `send`, `call` or the service. So are the clients of the
-- adapters, and the pool, the spans and the interruption of the effect library. What a theorem
-- needs of the server is a record of laws: RateLimit.Server (counters with TTLs and a clock),
-- Consumer.Server (XREAD), Script.Laws (SCRIPT LOAD and EVALSHA), Redis.ValueServer (GET, SET,
-- DEL), Ref.CollectionServer (fields and members) and Cache.Lock (SET NX, and that the server
-- runs the release script as the program of Lua whose text it is: Cache.ReleaseScript has that
-- part of Lua). The Tests modules give a server for each, some of them over Redis.Memory.
--
-- Bounds and fuel. `Consumer.consume` runs for a number of rounds, since the stream has no end;
-- what is said of it holds for every number, and Consumer.Progress says how many are enough. A
-- typed stream takes as many rounds as the raw one under it. `Cache.Core.loop` takes the number
-- of rounds it may run, and Cache.Waiting gives a number that is enough. All else is by recursion
-- on its argument.
--
-- Interleavings. What one caller does is a function; Cache.Stampede has any number of callers of
-- a cache with stampede protection as a step relation on one server, in which a step is one
-- command of a caller, a lost reply, a dead process or an expiry. Cache.Tiered.Instances has any
-- number of instances of a tiered cache, in which a write takes three steps (the L2, the L1, the
-- message) and a get that misses the L1 two (its value, the L1). A subscription of an adapter is
-- a list of its client's events.
--
-- Not modelled: the delays between retries and the retries of the cache's listener and the
-- messages it may lose; when a scope of the effect library closes a client; other interleavings
-- than those above, and interruption; `Redis.use` and the context that provides the service,
-- which is an argument. Of the rate limiter, the script's floats are exact fractions, for whole
-- windows and limits.
pub mod Common
pub mod Js
pub mod Resp
pub mod RedisError
pub mod Effect
pub mod Run
pub mod Durations
pub mod RedisCommand
pub mod Cmd
pub mod Decode
pub mod Connection
pub mod Redis
pub mod Script
pub mod Ref
pub mod RateLimit
pub mod Consumer
pub mod Cache
pub mod Adapter
