-- ===== src/Cache/Tests/Instances.antt =====
-- An instance of a tiered cache over a server that keeps values, with an L1 beside it.
use redfx.Common.{
  Bool, ◌∷◌, ℕ, String, ◌≡◌, ◌≢◌, refl, Option, none, some, [], inl, inr, Option-cases,
  if◌then◌else◌, ◌==◌, eq_refl, true, false,
}
use redfx.Js.Number.{of_ℕ}
use redfx.Durations.Whole.{whole}
use redfx.Effect.{Exit, succeed, fail, die}
use redfx.Connection.{ConnectionService}
use redfx.RedisCommand.{command, set_args}
use redfx.Redis.Keys
use redfx.Redis.Service.{RedisService}
use redfx.Redis.Make.{make_redis}
use redfx.Redis.ValueServer.{ValueServer}
use redfx.Redis.Memory.{Store, stored_send, put, drop}
use redfx.Decode.{decode_option_string, decode_number}
use redfx.Ref.{Codec}
use redfx.Script.{Cached}
use redfx.Cache.Options.{CacheError, CacheOptions, Runtime, off}
use redfx.Cache.Tiered.{Memory, set, invalidate, on_message}
use redfx.Cache.Tiered.Reads.{Memoizes}
use redfx.Cache.Tiered.Instances.{Instances, handle_message, write_through, start}
use redfx.Cache.Tiered.Modelled.{TieredServer, Models, writes_are_steps}

abbrev World : Type 0
World = Store × (String → Option String)

abbrev Waited : Type 0
Waited = Option (Exit (CacheError String) String × Cached World)

abbrev connection : ConnectionService World
connection = record {
  send = λ c w. let (r, s) = stored_send c w.0 in (r, (s, w.1));
  pipeline = λ cs w. (succeed [], w);
  close = λ w. (succeed tt, w);
}

abbrev service : RedisService World whole
service = make_redis whole connection

abbrev remembers : String → String → World → World
remembers k v w = (w.0, λ j. if k == j then some v else w.1 j)

abbrev drops : String → World → World
drops k w = (w.0, λ j. if k == j then none else w.1 j)

abbrev keep : String → Exit (CacheError String) String → Cached World → Waited
keep key (succeed a) s = some (succeed a, record s { outside = remembers key a s.outside })
keep key (fail e) s = some (fail e, s)
keep key (die d) s = some (die d, s)

abbrev found : (String → Cached World → Waited) → String → Option String → Cached World → Waited
found lookup key (some a) s = some (succeed a, s)
found lookup key none s = elim (lookup key s) [ none ↦ none | some p ↦ keep key p.0 p.1 ]

abbrev l1 : Memory World String String
l1 = record {
  get = λ lookup key s. found lookup key (s.outside.1 key) s;
  set = remembers;
  invalidate = drops;
}

hits :
    (lookup : String → Cached World → Waited) (key a : String) (s : Cached World)
    → s.outside.1 key ≡ some a
    → l1.get lookup key s ≡ some (succeed a, s)
hits lookup key a s there = rw there refl

memory : Memoizes l1
memory = record {
  peek = λ key w. w.1 key;
  hit_lem = hits;
  peek-set = λ key j a w. refl;
  peek-invalidate = λ key j w. refl;
}

get_reply : (k : String) (w : World) → service.get k w ≡ (succeed (w.0.values k), w)
unfolding make_redis Keys.get Keys.ask decode_option_string command
get_reply k w = elim (Option-cases (w.0.values k)) [
  | inl missing ↦ rw missing refl
  | inr (s, there) ↦ rw there refl
]

set_replies :
    (k v : String) (ex px : Option ℕ) (keep_ttl : Bool) (w : World)
    → service.set k v (record { ex = ex; px = px; keep_ttl = keep_ttl }) w
      ≡ (succeed tt, (put k v w.0, w.1))
unfolding make_redis Keys.set command set_args
set_replies k v (some ex) px keep_ttl w = refl
set_replies k v none (some px) keep_ttl w = refl
set_replies k v none none true w = refl
set_replies k v none none false w = refl

del_reply :
    (k : String) (w : World) → service.del (k ∷ []) w ≡ (succeed (of_ℕ 1), (drop k w.0, w.1))
unfolding make_redis Keys.del Keys.ask decode_number command
del_reply k w = refl

values : ValueServer service
values = record {
  stored = λ k w. w.0.values k;
  put = λ k v w. (put k v w.0, w.1);
  drop = λ k w. (drop k w.0, w.1);
  dropped = λ k w. of_ℕ 1;
  get_lem = get_reply;
  set_lem = λ k v opts w. set_replies k v opts.ex opts.px opts.keep_ttl w;
  del_lem = del_reply;
  stored-put = λ k v w. rw (eq_refl k) refl;
  stored-drop = λ k w. rw (eq_refl k) refl;
}

abbrev texts : Codec String
texts = record { encode = λ s. succeed s; decode = λ s. succeed s }

texts_are_lawful : (a s : String) → texts.encode a ≡ succeed s → texts.decode s ≡ succeed a
texts_are_lawful a s encodes = cc

abbrev words : CacheOptions World ℕ String String
words = record {
  schema = texts;
  prefix = "words";
  ttl = 5000;
  lookup = λ key w. (succeed "found", w);
  stampede = off;
}

abbrev runtime : Runtime World
runtime = record {
  random_uuid = λ w. ("token", w);
  current_time_millis = λ w. 0;
  jitter_sleep = λ n w. w;
  number_result = λ v. succeed (of_ℕ 0);
}

server : TieredServer service words l1 "w"
unfolding values memory make_redis Keys.publish Keys.ask decode_number command
server = record {
  values = values;
  memory = memory;
  peek-put = λ t w. refl;
  peek-drop = λ w. refl;
  stored-set = λ a w. refl;
  stored-invalidate = λ w. refl;
  stored-publish = λ c m w. refl;
  peek-publish = λ c m w. refl;
  publish_sound = λ c m d w h. cc;
}

abbrev empty : Cached World
empty = record {
  cached_sha = none;
  outside = (record { values = λ k. none; kept = false }, λ k. none);
}

abbrev Same : ℕ → Instances String → World → Type 0
Same i m w = Models service runtime words l1 "me" "w" server texts_are_lawful i m w

writes_are_steps_example :
    ((a t : String)
      → words.schema.encode a ≡ succeed t
      → let (result, s') = set service runtime words l1 "me" "w" a empty in
        (result ≡ succeed tt) × Same 0 (write_through 0 (some a) (start none)) s'.outside)
    × (let (result, s') = invalidate service runtime words l1 "me" "w" empty in
        (result ≡ succeed tt) × Same 0 (write_through 0 none (start none)) s'.outside)
    × ((other : String)
        → let w' = on_message service runtime words l1 "me" other "w" empty.outside in
          (other ≢ "me" → Same 0 (handle_message 0 (start none)) w')
          × (other ≡ "me" → Same 0 (start none) w'))
unfolding server values memory
writes_are_steps_example =
    writes_are_steps service runtime words l1 "me" "w" server texts_are_lawful 0 (start none) empty
      (refl, refl)
