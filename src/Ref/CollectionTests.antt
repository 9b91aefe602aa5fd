-- ===== src/Ref/CollectionTests.antt =====
-- The theorems about `Redis.hashOf` and `Redis.setOf` over a service that keeps fields and members.
use redfx.Common.{
  String, ◌≡◌, ◌≢◌, refl, Bool, true, false, List, [], ◌∷◌, Option, none, some, ◌||◌, ◌&&◌, not,
  any, ◌==◌, if◌then◌else◌, ℕ, eq_refl,
}
use redfx.Js.Number.{of_ℕ}
use redfx.Durations.Whole.{whole}
use redfx.Resp.{null}
use redfx.RedisError.{connection_error}
use redfx.Effect.{succeed, fail, for_each}
use redfx.Redis.Service.{RedisService}
use redfx.Redis.Make.{make_redis}
use redfx.Ref.Options.{Codec, RefOptions, WriteOptions, to_decode_error}
use redfx.Ref.HashOf as HashOf
use redfx.Ref.SetOf as SetOf
use redfx.Ref.CollectionServer.{CollectionServer}
use redfx.Ref.Collected.{In, written_field_is_read, added_is_member}

abbrev texts : Codec String
texts = record { encode = λ s. succeed s; decode = λ s. succeed s }

texts_are_lawful : (a s : String) → texts.encode a ≡ succeed s → texts.decode s ≡ succeed a
texts_are_lawful a s encodes = cc

record Shelf : Type 0 where
  fields : String → String → Option String
  members : String → String → Bool

abbrev write : String → String → String → Shelf → Shelf
write k f v w = record w {
  fields = λ j g. if j == k then (if f == g then some v else w.fields j g) else w.fields j g;
}

abbrev write_all : String → List (String × String) → Shelf → Shelf
write_all k [] w = w
write_all k ((f, v) ∷ es) w = write_all k es (write k f v w)

abbrev insert : String → List String → Shelf → Shelf
insert k ms w = record w {
  members = λ j m. if j == k then any (λ x. x == m) ms || w.members j m else w.members j m;
}

abbrev withdraw : String → List String → Shelf → Shelf
withdraw k ms w = record w {
  members = λ j m. if j == k then not (any (λ x. x == m) ms) && w.members j m else w.members j m;
}

-- Its EXPIRE always fails.
abbrev service : RedisService Shelf whole
service =
    record (make_redis whole (record {
      send = λ c w. (succeed null, w);
      pipeline = λ cs w. (succeed [], w);
      close = λ w. (succeed tt, w);
    })) {
      hset = λ k es w. (succeed (of_ℕ 1), write_all k es w);
      hget = λ k f w. (succeed (w.fields k f), w);
      sadd = λ k ms w. (succeed (of_ℕ 1), insert k ms w);
      srem = λ k ms w. (succeed (of_ℕ 1), withdraw k ms w);
      sismember = λ k m w. (succeed (w.members k m), w);
      expire = λ k d w. (fail (connection_error "reset by peer"), w);
    }

collection_server : CollectionServer service
collection_server = record {
  field = λ k f w. w.fields k f;
  is_member = λ k m w. w.members k m;
  write = write;
  insert = insert;
  withdraw = withdraw;
  written = λ k f w. of_ℕ 1;
  inserted = λ k ms w. of_ℕ 1;
  withdrawn = λ k ms w. of_ℕ 1;
  hset_lem = λ k f v w. refl;
  hget_lem = λ k f w. refl;
  sadd_lem = λ k ms w. refl;
  srem_lem = λ k ms w. refl;
  sismember_lem = λ k m w. refl;
  field-write = λ k f v g w. rw (eq_refl k) refl;
  is_member-insert = λ k m ms w. rw (eq_refl k) refl;
  is_member-withdraw = λ k m ms w. rw (eq_refl k) refl;
  field-expire = λ k f d w. refl;
  is_member-expire = λ k m d w. refl;
}

abbrev empty : Shelf
empty = record { fields = λ k f. none; members = λ k m. false }

abbrev plain : RefOptions ℕ
plain = record { prefix = "user"; ttl = some 1500 }

abbrev default : WriteOptions ℕ
default = record { ttl = none; keep_ttl = false }

written_field_is_read_example :
    let (outcome, w') = HashOf.set service texts plain "h" "name" "ann" default empty in
    (HashOf.get service texts plain "h" "name" w' ≡ (succeed (some "ann"), w'))
    × ((g : String)
        → "name" ≢ g
        → (HashOf.get service texts plain "h" g w').0
          ≡ (HashOf.get service texts plain "h" g empty).0)
written_field_is_read_example =
    written_field_is_read service texts plain "h" collection_server texts_are_lawful "name" "ann"
      "ann" default empty refl

abbrev both : List String
both = "ann" ∷ "bob" ∷ []

added_is_member_example :
    let values = both in
    let w1 = (SetOf.add_with service texts plain "s" values default empty).1 in
    let w2 = (SetOf.remove service texts plain "s" values empty).1 in
    (In "bob" values
      → (SetOf.has service texts plain "s" "bob" w1 ≡ (succeed true, w1))
        × (SetOf.has service texts plain "s" "bob" w2 ≡ (succeed false, w2)))
    × ((In "bob" values → ⊥)
        → ((SetOf.has service texts plain "s" "bob" w1).0
            ≡ (SetOf.has service texts plain "s" "bob" empty).0)
          × ((SetOf.has service texts plain "s" "bob" w2).0
              ≡ (SetOf.has service texts plain "s" "bob" empty).0))
unfolding for_each to_decode_error
added_is_member_example =
    added_is_member service texts plain "s" collection_server texts_are_lawful both both default
      empty "bob" "bob" refl refl
