-- ===== src/Cache/Tests/Tiers.antt =====
-- Two tiers: a server that answers null to everything, and an L1 that is the whole state; and several
-- instances.
use redfx.Common.{
  true, false, ◌⊎◌, arith, ℕ, String, ◌≡◌, refl, [], Option, none, some, ◌==◌, if◌then◌else◌,
}
use redfx.Durations.Whole.{whole}
use redfx.Resp.{null}
use redfx.Js.Number.{of_ℕ}
use redfx.Effect.{Exit, succeed, fail, die}
use redfx.Redis.Service.{RedisService}
use redfx.Redis.Make.{make_redis}
use redfx.Redis.Keys
use redfx.Script.{Cached}
use redfx.Decode.{decode_number}
use redfx.Ref.{Codec, to_decode_error}
use redfx.Ref.Value
use redfx.Cache.Options.{CacheError, CacheOptions, Runtime, off}
use redfx.Cache.Core.{store, ignore}
use redfx.Cache.Tiered.{Memory, get, set, refresh, invalidate, publish_inv}
use redfx.Cache.Tiered.Instances.{
  Instances, write, hold, announce, handle_message, writes, holds, announces, handles, Reach, here,
  later, start, Settled,
}
use redfx.Cache.Tiered.Coherence.{l1s_agree}
use redfx.Cache.Tiered.Overtaken.{overtaken, overtaken_write_stays, outlived, late_fill_stays}
use redfx.Cache.Tiered.Reads.{Memoizes, written_is_read}

abbrev L1 : Type 0
L1 = String → Option String

abbrev service : RedisService L1 whole
service = make_redis whole (record {
  send = λ c w. (succeed null, w);
  pipeline = λ cs w. (succeed [], w);
  close = λ w. (succeed tt, w);
})

abbrev runtime : Runtime L1
runtime = record {
  random_uuid = λ w. ("token", w);
  current_time_millis = λ w. 0;
  jitter_sleep = λ n w. w;
  number_result = λ v. succeed (of_ℕ 0);
}

abbrev texts : Codec String
texts = record { encode = λ s. succeed s; decode = λ s. succeed s }

abbrev words : CacheOptions L1 ℕ String String
words = record {
  schema = texts;
  prefix = "words";
  ttl = 5000;
  lookup = λ key w. (succeed "found", w);
  stampede = off;
}

abbrev Waited : Type 0
Waited = Option (Exit (CacheError String) String × Cached L1)

abbrev put : String → String → L1 → L1
put k v w = λ j. if k == j then some v else w j

abbrev drop : String → L1 → L1
drop k w = λ j. if k == j then none else w j

abbrev keep : String → Exit (CacheError String) String → Cached L1 → Waited
keep key (succeed a) s = some (succeed a, record s { outside = put key a s.outside })
keep key (fail e) s = some (fail e, s)
keep key (die d) s = some (die d, s)

abbrev found : (String → Cached L1 → Waited) → String → Option String → Cached L1 → Waited
found lookup key (some a) s = some (succeed a, s)
found lookup key none s = elim (lookup key s) [ none ↦ none | some p ↦ keep key p.0 p.1 ]

abbrev l1 : Memory L1 String String
l1 = record {
  get = λ lookup key s. found lookup key (s.outside key) s;
  set = put;
  invalidate = drop;
}

hits :
    (lookup : String → Cached L1 → Waited) (key a : String) (s : Cached L1)
    → s.outside key ≡ some a
    → l1.get lookup key s ≡ some (succeed a, s)
hits lookup key a s there = rw there refl

memory : Memoizes l1
memory = record {
  peek = λ key w. w key;
  hit_lem = hits;
  peek-set = λ key j a w. refl;
  peek-invalidate = λ key j w. refl;
}

publish_steady :
    (channel message key : String) (w : L1)
    → memory.peek key (service.publish channel message w).1 ≡ memory.peek key w
unfolding make_redis Keys.publish Keys.ask memory decode_number
publish_steady channel message key w = refl

abbrev empty : Cached L1
empty = record { cached_sha = none; outside = λ k. none }

abbrev written : Cached L1
written = record { cached_sha = none; outside = put "w" "v" (λ k. none) }

written_is_read_example :
    (set service runtime words l1 "me" "w" "v" empty ≡ (succeed tt, written)
      → get service runtime words l1 "me" 3 "w" written ≡ some (succeed "v", written))
    × (refresh service runtime words l1 "me" "w" empty ≡ (succeed "v", written)
        → get service runtime words l1 "me" 3 "w" written ≡ some (succeed "v", written))
    × (invalidate service runtime words l1 "me" "w" empty ≡ (succeed tt, written)
        → memory.peek "w" written.outside ≡ none)
written_is_read_example =
    written_is_read service runtime words l1 "me" memory publish_steady 3 "w" "v" empty written

set_is_written : set service runtime words l1 "me" "w" "v" empty ≡ (succeed tt, written)
unfolding set publish_inv ignore store make_redis Keys.publish Keys.ask Keys.set Value.set
    to_decode_error decode_number
set_is_written = refl

-- Instance 0 writes 5, and instance 1 handles the message.
abbrev spread_out : Instances ℕ
spread_out = handle_message 1 (announce 0 (hold 0 (some 5) (write 0 (some 5) (start none))))

spread_out-Reach : Reach true (start none) spread_out
unfolding write hold announce
spread_out-Reach =
    later
      (later
        (later (later here (writes 0 (some 5) refl (λ h i. (refl, refl)))) (holds 0 (some 5) refl))
        (announces 0 refl))
      (handles 1 (λ h. cc))

spread_out-Settled : Settled spread_out 1
unfolding write hold announce handle_message
spread_out-Settled = (λ i. ground arith, refl)

l1s_agree_example : (spread_out.l1 1 ≡ none) ⊎ (spread_out.l1 1 ≡ spread_out.l2)
l1s_agree_example = l1s_agree none 1 spread_out-Reach spread_out-Settled

overtaken_write_stays_example :
    let s = overtaken {A = ℕ} 0 1 5 6 (start none) in
    Reach false (start none) s × Settled s 0 × Settled s 1 × (s.l1 0 ≡ some 5) × (s.l2 ≡ some 6)
overtaken_write_stays_example = overtaken_write_stays 0 1 5 6 none (λ h. ground arith)

late_fill_stays_example :
    let s = outlived {A = ℕ} 0 1 5 6 (start (some 5)) in
    Reach false (start (some 5)) s × Settled s 0 × Settled s 1 × (s.l1 0 ≡ some 5) × (s.l2 ≡ some 6)
late_fill_stays_example = late_fill_stays 0 1 5 6 (λ h. ground arith)
