-- ===== src/Ref/Handles.antt =====
-- The handles of the typed key families and the functions that make them from an id (`Redis.ref`,
-- `setOf`, `sortedSet` and `hashOf` of packages/core/src/Redis.ts).
use redfx.Common.{String, Bool, false, List, Option, none}
use redfx.Js.Number.{Number}
use redfx.Durations.{Durations}
use redfx.RedisError.{RedisError}
use redfx.Run.{Effect}
use redfx.Redis.Service.{RedisService}
use redfx.Ref.Options.{Codec, RefOptions, WriteOptions, key_of, delete}
use redfx.Ref.Value
use redfx.Ref.SetOf
use redfx.Ref.SortedSet
use redfx.Ref.HashOf

pub record RedisRef (W D A : Type 0) : Type 0 where
  pub key : String
  pub get : Effect W RedisError (Option A)
  pub set : A → WriteOptions D → Effect W RedisError (Unit {0})
  pub update : (A → A) → Bool → Effect W RedisError (Unit {0})
  pub get_delete : Effect W RedisError (Option A)
  pub delete : Effect W RedisError Bool

pub record RedisSetRef (W : Type 0) (durations : Durations) (A : Type 0) : Type 0 where
  pub key : String
  pub add : List A → Effect W RedisError Number
  pub add_with : List A → WriteOptions durations.DurationInput → Effect W RedisError Number
  pub remove : List A → Effect W RedisError Number
  pub members : Effect W RedisError (List A)
  pub has : A → Effect W RedisError Bool
  pub size : Effect W RedisError Number
  pub expire : durations.DurationInput → Effect W RedisError Bool
  pub ttl : Effect W RedisError (Option durations.Duration)
  pub delete : Effect W RedisError Bool

pub record RedisZsetRef (W : Type 0) (durations : Durations) (A : Type 0) : Type 0 where
  pub key : String
  pub add : A → Number → WriteOptions durations.DurationInput → Effect W RedisError Number
  pub remove : List A → Effect W RedisError Number
  pub score : A → Effect W RedisError (Option Number)
  pub rank : A → Effect W RedisError (Option Number)
  pub incr_by : A → Number → WriteOptions durations.DurationInput → Effect W RedisError Number
  pub range : Number → Number → Effect W RedisError (List A)
  pub range_with_scores : Number → Number → Effect W RedisError (List (A × Number))
  pub size : Effect W RedisError Number
  pub expire : durations.DurationInput → Effect W RedisError Bool
  pub ttl : Effect W RedisError (Option durations.Duration)
  pub delete : Effect W RedisError Bool

pub record RedisHashRef (W : Type 0) (durations : Durations) (A : Type 0) : Type 0 where
  pub key : String
  pub set : String → A → WriteOptions durations.DurationInput → Effect W RedisError (Unit {0})
  pub get : String → Effect W RedisError (Option A)
  pub get_all : Effect W RedisError (List (String × A))
  pub has : String → Effect W RedisError Bool
  pub remove : List String → Effect W RedisError Number
  pub keys : Effect W RedisError (List String)
  pub size : Effect W RedisError Number
  pub expire : durations.DurationInput → Effect W RedisError Bool
  pub ttl : Effect W RedisError (Option durations.Duration)
  pub delete : Effect W RedisError Bool

module _ {W A : Type 0} {durations : Durations} (r : RedisService W durations) (codec : Codec A)
    (options : RefOptions durations.DurationInput) where
  unfoldable pub ref : String → RedisRef W durations.DurationInput A
  ref id =
      let key = key_of options.prefix id in
      record {
        key = key;
        get = Value.get r codec options key;
        set = Value.set r codec options key;
        update = Value.update r codec options key;
        get_delete = Value.get_delete r codec options key;
        delete = delete r key;
      }

  unfoldable pub set_of : String → RedisSetRef W durations A
  set_of id =
      let key = key_of options.prefix id in
      record {
        key = key;
        add = λ values.
            SetOf.add_with r codec options key values (record { ttl = none; keep_ttl = false });
        add_with = SetOf.add_with r codec options key;
        remove = SetOf.remove r codec options key;
        members = SetOf.members r codec options key;
        has = SetOf.has r codec options key;
        size = r.scard key;
        expire = r.expire key;
        ttl = r.ttl key;
        delete = delete r key;
      }

  unfoldable pub sorted_set : String → RedisZsetRef W durations A
  sorted_set id =
      let key = key_of options.prefix id in
      record {
        key = key;
        add = SortedSet.add r codec options key;
        remove = SortedSet.remove r codec options key;
        score = SortedSet.score r codec options key;
        rank = SortedSet.rank r codec options key;
        incr_by = SortedSet.incr_by r codec options key;
        range = SortedSet.range r codec options key;
        range_with_scores = SortedSet.range_with_scores r codec options key;
        size = r.zcard key;
        expire = r.expire key;
        ttl = r.ttl key;
        delete = delete r key;
      }

  unfoldable pub hash_of : String → RedisHashRef W durations A
  hash_of id =
      let key = key_of options.prefix id in
      record {
        key = key;
        set = HashOf.set r codec options key;
        get = HashOf.get r codec options key;
        get_all = HashOf.get_all r codec options key;
        has = r.hexists key;
        remove = HashOf.remove r codec options key;
        keys = r.hkeys key;
        size = r.hlen key;
        expire = r.expire key;
        ttl = r.ttl key;
        delete = delete r key;
      }
