-- ===== src/Adapter/ClientTests.antt =====
-- The theorems about the adapters' clients at a configuration that wants to reconnect, and at a
-- subscription that is lost.
use redfx.Common.{◌++◌, String, ◌≡◌, refl, true, List, [], ◌∷◌, none, some, map}
use redfx.Resp.{null}
use redfx.RedisError.{RedisError}
use redfx.Effect.{succeed}
use redfx.Run.{Effect, pure, for_each_effect}
use redfx.Common.{ℕ}
use redfx.Connection.{PushMessage}
use redfx.Consumer.{running}
use redfx.Adapter.Emitter.{Emitter}
use redfx.Adapter.Cause.{Cause, Promised}
use redfx.Adapter.Options.{flag, ClientConfig}
use redfx.Adapter.Bun.Connect as Bun
use redfx.Adapter.IoRedis.Connect as IoRedis
use redfx.Adapter.Bun.Subscribe as BunSubscribe
use redfx.Adapter.IoRedis.Subscribe as IoRedisSubscribe
use redfx.Adapter.Subscriptions.{heard, reported, messages, Lost, subscriptions_emit}

abbrev bun : Bun.Clients String
bun = record {
  Client = String;
  connect = λ url o w. (succeed "client", w);
  send = λ client name args w. (succeed null, w);
  all = λ client commands w. (succeed [], w);
  close = λ client w. w;
}

abbrev ioredis : IoRedis.Clients String
ioredis = record {
  Client = String;
  connect = λ url o w. (succeed "client", w);
  connect_cluster = λ nodes o w. (succeed "client", w);
  send_command = λ client name args w. (succeed null, w);
  exec = λ client commands w. (succeed none, w);
  quit = λ client w. (succeed tt, w);
  disconnect = λ client w. w;
}

abbrev stubborn : ClientConfig ℕ
stubborn = record {
  url = some "redis://localhost";
  options = ("enableOfflineQueue", flag true) ∷ [];
  command_timeout = none;
}

abbrev reset : Cause
reset = record { code = some "ECONNRESET"; message = none; name = none; printed = "reset" }

abbrev news : PushMessage
news = record { channel = "news"; message = "hello" }

abbrev acquire : Effect String RedisError String
acquire = pure "client"

abbrev accepts : {X : Type 0} → String → X → Promised String (Unit {0})
accepts client x w = (succeed tt, w)

abbrev teardown : List BunSubscribe.Event
teardown = BunSubscribe.onclose reset ∷ []

abbrev bun_emits : List BunSubscribe.Event → Emitter
bun_emits es = (BunSubscribe.subscribe_stream acquire accepts ("news" ∷ []) es "w").0

abbrev ioredis_emits : List IoRedisSubscribe.Event → Emitter
ioredis_emits es = (IoRedisSubscribe.subscribe_stream acquire accepts ("news" ∷ []) es "w").0

subscriptions_emit_example :
    let hs = some news ∷ none ∷ some news ∷ [] in
    (bun_emits (heard news ∷ []) ≡ record { emitted = news ∷ []; status = running })
    × ((bun_emits (heard news ∷ BunSubscribe.onclose reset ∷ teardown)).emitted ≡ news ∷ [])
    × Lost (bun_emits (heard news ∷ BunSubscribe.onclose reset ∷ teardown)).status
    × ((bun_emits (heard news ∷ BunSubscribe.finalizer ∷ teardown)).status ≡ running)
    × (ioredis_emits (map reported hs) ≡ record { emitted = messages hs; status = running })
    × ((ioredis_emits (map reported hs ++ IoRedisSubscribe.error reset ∷ [])).emitted ≡ messages hs)
    × Lost (ioredis_emits (map reported hs ++ IoRedisSubscribe.error reset ∷ [])).status
unfolding BunSubscribe.subscribe_all IoRedisSubscribe.subscribe_all for_each_effect
subscriptions_emit_example =
    subscriptions_emit acquire accepts acquire accepts ("news" ∷ []) (news ∷ [])
      (some news ∷ none ∷ some news ∷ []) reset teardown [] "w" "w" "w" refl refl
