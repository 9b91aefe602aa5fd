-- ===== src/Adapter/Subscriptions.antt =====
-- What the subscriptions of the two adapters emit (`subscribeStream` of packages/bun/src/index.ts and
-- packages/ioredis/src/index.ts).
use redfx.Common.{
  String, ◌≡◌, refl, ap, ◌∙◌, Bool, true, false, List, [], ◌∷◌, ◌++◌, map, Option, none, some,
}
use mathlib.Core.List.{append_assoc, append-nil}
use redfx.RedisError.{RedisError}
use redfx.Effect.{Exit, succeed}
use redfx.Run.{Effect, ◌>>=◌}
use redfx.Connection.{PushMessage}
use redfx.Consumer.{Status, running, stopped, is_connection_error}
use redfx.Adapter.Cause.{Cause, Promised}
use redfx.Adapter.Emitter.{Emitter, set_up}
use redfx.Adapter.Bun.Subscribe as Bun
use redfx.Adapter.IoRedis.Subscribe as IoRedis

-- The call of Bun's listener with a message.
abbrev pub heard : PushMessage → Bun.Event
heard m = Bun.listener m.message m.channel

-- What an ioredis client that has no error reports: a message, or that its connection is closed.
abbrev pub reported : Option PushMessage → IoRedis.Event
reported none = IoRedis.closes
reported (some m) = IoRedis.message m.channel m.message

abbrev pub messages : List (Option PushMessage) → List PushMessage
messages [] = []
messages (none ∷ hs) = messages hs
messages (some m ∷ hs) = m ∷ messages hs

-- A stream has ended with an error that the consumers and the listeners retry.
abbrev pub Lost : Status → Type 0
Lost status = (e : RedisError) × (status ≡ stopped e) × (is_connection_error e ≡ true)

abbrev going : List PushMessage → Emitter
going ms = record { emitted = ms; status = running }

abbrev ended : List PushMessage → RedisError → Emitter
ended ms e = record { emitted = ms; status = stopped e }

abbrev live : List PushMessage → Bun.Subscriber
live ms = record { active = true; emitter = going ms }

bun-append :
    (es fs : List Bun.Event) (s : Bun.Subscriber)
    → Bun.on_events (es ++ fs) s ≡ Bun.on_events fs (Bun.on_events es s)
unfolding Bun.on_events
bun-append [] fs s = refl
bun-append (e ∷ es) fs s = bun-append es fs (Bun.on_event e s)

bun-heard :
    (ms before : List PushMessage)
    → Bun.on_events (map heard ms) (live before) ≡ live (before ++ ms)
unfolding Bun.on_events Bun.on_event
bun-heard [] before = rw append-nil refl
bun-heard (m ∷ ms) before = bun-heard ms (before ++ m ∷ []) ∙ simp append_assoc

-- A stream that has ended stays as it is.
bun-ended :
    (es : List Bun.Event) (active : Bool) (ms : List PushMessage) (e : RedisError)
    → (Bun.on_events es (record { active = active; emitter = ended ms e })).emitter ≡ ended ms e
unfolding Bun.on_events Bun.on_event
bun-ended [] active ms e = refl
bun-ended (Bun.listener text channel ∷ es) active ms e = bun-ended es active ms e
bun-ended (Bun.onclose cause ∷ es) true ms e = bun-ended es true ms e
bun-ended (Bun.onclose cause ∷ es) false ms e = bun-ended es false ms e
bun-ended (Bun.finalizer ∷ es) active ms e = bun-ended es false ms e

-- Nothing that happens behind the finalizer changes how a stream of the Bun adapter stands.
bun-finalized :
    (es : List Bun.Event) (s : Emitter)
    → (Bun.on_events es (record { active = false; emitter = s })).emitter.status ≡ s.status
unfolding Bun.on_events Bun.on_event
bun-finalized [] s = refl
bun-finalized (Bun.listener text channel ∷ es) s = bun-finalized es _
bun-finalized (Bun.onclose cause ∷ es) s = bun-finalized es s
bun-finalized (Bun.finalizer ∷ es) s = bun-finalized es s

ioredis-append :
    (es fs : List IoRedis.Event) (s : Emitter)
    → IoRedis.on_events (es ++ fs) s ≡ IoRedis.on_events fs (IoRedis.on_events es s)
unfolding IoRedis.on_events
ioredis-append [] fs s = refl
ioredis-append (e ∷ es) fs s = ioredis-append es fs (IoRedis.on_event e s)

ioredis-reported :
    (hs : List (Option PushMessage)) (before : List PushMessage)
    → IoRedis.on_events (map reported hs) (going before) ≡ going (before ++ messages hs)
unfolding IoRedis.on_events IoRedis.on_event
ioredis-reported [] before = rw append-nil refl
ioredis-reported (none ∷ hs) before = ioredis-reported hs before
ioredis-reported (some m ∷ hs) before = ioredis-reported hs (before ++ m ∷ []) ∙ simp append_assoc

ioredis-ended :
    (es : List IoRedis.Event) (ms : List PushMessage) (e : RedisError)
    → IoRedis.on_events es (ended ms e) ≡ ended ms e
unfolding IoRedis.on_events IoRedis.on_event
ioredis-ended [] ms e = refl
ioredis-ended (IoRedis.message channel text ∷ es) ms e = ioredis-ended es ms e
ioredis-ended (IoRedis.error cause ∷ es) ms e = ioredis-ended es ms e
ioredis-ended (IoRedis.closes ∷ es) ms e = ioredis-ended es ms e

module _ {W B I : Type 0} (make_client : Effect W RedisError B)
    (bun_subscribe : B → String → Promised W (Unit {0})) (acquire : Effect W RedisError I)
    (ioredis_subscribe : I → List String → Promised W (Unit {0})) (channels : List String) where
  abbrev bun_emits : W → List Bun.Event → Emitter
  bun_emits w events = (Bun.subscribe_stream make_client bun_subscribe channels events w).0

  abbrev ioredis_emits : W → List IoRedis.Event → Emitter
  ioredis_emits w events = (IoRedis.subscribe_stream acquire ioredis_subscribe channels events w).0

  bun_set_up_lem :
      (events : List Bun.Event) (w w1 : W)
      → (make_client >>= Bun.subscribe_all make_client bun_subscribe channels) w ≡ (succeed tt, w1)
      → bun_emits w events ≡ (Bun.on_events events (live [])).emitter
  unfolding Bun.subscribe_stream
  bun_set_up_lem events w w1 ready =
      ap
        (λ (made : Exit RedisError (Unit {0}) × W).
          (Bun.on_events events (record { active = true; emitter = set_up made.0 })).emitter)
        ready

  ioredis_set_up_lem :
      (events : List IoRedis.Event) (w w2 : W)
      → (acquire >>= IoRedis.subscribe_all acquire ioredis_subscribe channels) w ≡ (succeed tt, w2)
      → ioredis_emits w events ≡ IoRedis.on_events events (going [])
  unfolding IoRedis.subscribe_stream
  ioredis_set_up_lem events w w2 ready = rw ready refl

  -- A subscription that is set up emits each message with its channel, in order, and goes on. With the
  -- Bun adapter it ends with a ConnectionError at the first close, and emits nothing more, unless its
  -- finalizer has run: from then on nothing ends it with an error, its own close included. With the
  -- ioredis adapter it ends with a ConnectionError at the first error that the client reports, and
  -- emits nothing more; that the connection is closed does not end it.
  pub subscriptions_emit :
      (ms : List PushMessage) (hs : List (Option PushMessage)) (cause : Cause) (es : List Bun.Event)
      (fs : List IoRedis.Event) (w w1 w2 : W)
      → (make_client >>= Bun.subscribe_all make_client bun_subscribe channels) w ≡ (succeed tt, w1)
      → (acquire >>= IoRedis.subscribe_all acquire ioredis_subscribe channels) w ≡ (succeed tt, w2)
      → (bun_emits w (map heard ms) ≡ going ms)
        × ((bun_emits w (map heard ms ++ Bun.onclose cause ∷ es)).emitted ≡ ms)
        × Lost (bun_emits w (map heard ms ++ Bun.onclose cause ∷ es)).status
        × ((bun_emits w (map heard ms ++ Bun.finalizer ∷ es)).status ≡ running)
        × (ioredis_emits w (map reported hs) ≡ going (messages hs))
        × ((ioredis_emits w (map reported hs ++ IoRedis.error cause ∷ fs)).emitted ≡ messages hs)
        × Lost (ioredis_emits w (map reported hs ++ IoRedis.error cause ∷ fs)).status
  unfolding Bun.on_events Bun.on_event IoRedis.on_events IoRedis.on_event is_connection_error
  subscriptions_emit ms hs cause es fs w w1 w2 bun_ready ioredis_ready =
      let bun = λ (events : List Bun.Event). bun_set_up_lem events w w1 bun_ready in
      let ioredis = λ (events : List IoRedis.Event). ioredis_set_up_lem events w w2 ioredis_ready in
      let lost = Bun.onclose cause ∷ es in
      let failing = IoRedis.error cause ∷ fs in
      let bun_lost =
        bun (map heard ms ++ lost)
        ∙ ap (λ s. s.emitter)
            (bun-append (map heard ms) lost (live []) ∙ ap (Bun.on_events lost) (bun-heard ms []))
        ∙ bun-ended es true ms _ in
      let ioredis_lost =
        ioredis (map reported hs ++ failing)
        ∙ ioredis-append (map reported hs) failing (going [])
        ∙ ap (IoRedis.on_events failing) (ioredis-reported hs [])
        ∙ ioredis-ended fs (messages hs) _ in
      (
        bun (map heard ms) ∙ ap (λ s. s.emitter) (bun-heard ms []),
        ap (λ s. s.emitted) bun_lost,
        (_, ap (λ s. s.status) bun_lost, refl),
        ap (λ s. s.status)
              (bun (map heard ms ++ Bun.finalizer ∷ es)
                ∙ ap (λ s. s.emitter)
                    (bun-append (map heard ms) (Bun.finalizer ∷ es) (live [])
                      ∙ ap (Bun.on_events (Bun.finalizer ∷ es)) (bun-heard ms [])))
            ∙ bun-finalized es (going ms),
        ioredis (map reported hs) ∙ ioredis-reported hs [],
        ap (λ s. s.emitted) ioredis_lost,
        (_, ap (λ s. s.status) ioredis_lost, refl),
      )
