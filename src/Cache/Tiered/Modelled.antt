-- ===== src/Cache/Tiered/Modelled.antt =====
-- That the steps of Cache.Tiered.Instances are those of a tiered cache (`makeTiered` of
-- packages/core/src/Cache.ts): a write of one instance that nothing interrupts is its three steps.
use redfx.Common.{
  String, ◌≡◌, ◌≢◌, refl, Bool, Option, none, some, eqb, ℕ, arith, ◌==◌, true, eq_refl, eq_iff,
  Bool-cases, inl, inr,
}
use redfx.Durations.{Durations}
use redfx.Effect.{succeed, die}
use redfx.Redis.Service.{RedisService}
use redfx.Redis.ValueServer.{ValueServer}
use redfx.Ref.{key_of, to_decode_error, delete, is_positive}
use redfx.Ref.Value
use redfx.Script.{Cached}
use redfx.Cache.Options.{CacheOptions, Runtime}
use redfx.Cache.Core.{store, del}
use redfx.Cache.Tiered.{Memory, set, invalidate, announced, on_message, publish_inv_lem}
use redfx.Cache.Tiered.Reads.{Memoizes}
use redfx.Cache.Tiered.Instances.{Instances, write, hold, announce, handle_message, write_through}

module _ {W E A : Type 0} {durations : Durations} (r : RedisService W durations)
    (options : CacheOptions W durations.DurationInput E A) (l1 : Memory W E A) (key : String) where
  -- A server that keeps values and an L1 do not meet, and a publish changes neither and is no defect.
  pub record TieredServer : Type 0 where
    pub values : ValueServer r
    pub memory : Memoizes l1
    pub peek-put :
        (t : String) (w : W)
        → memory.peek key (values.put (key_of options.prefix key) t w) ≡ memory.peek key w
    pub peek-drop :
        (w : W) → memory.peek key (values.drop (key_of options.prefix key) w) ≡ memory.peek key w
    pub stored-set :
        (a : A) (w : W)
        → values.stored (key_of options.prefix key) (l1.set key a w)
          ≡ values.stored (key_of options.prefix key) w
    pub stored-invalidate :
        (w : W)
        → values.stored (key_of options.prefix key) (l1.invalidate key w)
          ≡ values.stored (key_of options.prefix key) w
    pub stored-publish :
        (channel message : String) (w : W)
        → values.stored (key_of options.prefix key) (r.publish channel message w).1
          ≡ values.stored (key_of options.prefix key) w
    pub peek-publish :
        (channel message : String) (w : W)
        → memory.peek key (r.publish channel message w).1 ≡ memory.peek key w
    pub publish_sound :
        (channel message d : String) (w : W) → (r.publish channel message w).0 ≢ die d

module _ {W E A : Type 0} {durations : Durations} (r : RedisService W durations)
    (runtime : Runtime W) (options : CacheOptions W durations.DurationInput E A) (l1 : Memory W E A)
    (instance_id key : String) (server : TieredServer r options l1 key)
    (lawful : (a : A) (s : String)
      → options.schema.encode a ≡ succeed s
      → options.schema.decode s ≡ succeed a) where
  open server use {
    values, memory, peek-put, peek-drop, stored-set, stored-invalidate, stored-publish,
    peek-publish, publish_sound,
  }

  abbrev full : String
  full = key_of options.prefix key

  -- The value that a stored text stands for.
  abbrev pub StandsFor : Option A → Option String → Type 0
  StandsFor value none = value ≡ none
  StandsFor value (some s) = (a : A) × (options.schema.decode s ≡ succeed a) × (value ≡ some a)

  -- What instance `i` sees of the instances, as it stands in a state of the program.
  abbrev pub Models : ℕ → Instances A → W → Type 0
  Models i m w = StandsFor m.l2 (values.stored full w) × (memory.peek key w ≡ m.l1 i)

  store_lem :
      (a : A) (t : String) (s : Cached W)
      → options.schema.encode a ≡ succeed t
      → store r runtime options key a s
        ≡ (succeed a, record s { outside = values.put full t s.outside })
  unfolding store Value.set to_decode_error
  store_lem a t s encodes = rw (encodes, values.set_lem) refl

  del_lem :
      (s : Cached W)
      → (b : Bool) × (del r runtime options key s
          ≡ (succeed b, record s { outside = values.drop full s.outside }))
  unfolding del delete
  del_lem s = (is_positive (values.dropped full s.outside), rw values.del_lem refl)

  set_lem :
      (a : A) (t : String) (s : Cached W)
      → options.schema.encode a ≡ succeed t
      → set r runtime options l1 instance_id key a s ≡ (
        succeed tt,
        announced r runtime options l1 instance_id key
            (record s { outside = l1.set key a (values.put full t s.outside) }),
      )
  unfolding set
  set_lem a t s encodes =
      rw (store_lem a t s encodes)
        (publish_inv_lem r runtime options l1 instance_id (λ k d w. publish_sound _ _ d w) key _)

  invalidate_lem :
      (s : Cached W)
      → invalidate r runtime options l1 instance_id key s ≡ (
        succeed tt,
        announced r runtime options l1 instance_id key
            (record s { outside = l1.invalidate key (values.drop full s.outside) }),
      )
  unfolding invalidate
  invalidate_lem s =
      rw ((del_lem s).1)
        (publish_inv_lem r runtime options l1 instance_id (λ k d w. publish_sound _ _ d w) key _)

  -- In an instance whose L1 and L2 are as the instances say, a set whose value encodes and an invalidate
  -- succeed, and leave the L1 and the L2 as the three steps of the instance do; a message of another
  -- instance leaves them as the step of its listener does, and one of its own as they were.
  pub writes_are_steps :
      (i : ℕ) (m : Instances A) (s : Cached W)
      → Models i m s.outside
      → ((a : A) (t : String)
          → options.schema.encode a ≡ succeed t
          → let (result, s') = set r runtime options l1 instance_id key a s in
            (result ≡ succeed tt) × Models i (write_through i (some a) m) s'.outside)
        × (let (result, s') = invalidate r runtime options l1 instance_id key s in
            (result ≡ succeed tt) × Models i (write_through i none m) s'.outside)
        × ((other : String)
            → let w' = on_message r runtime options l1 instance_id other key s.outside in
              (other ≢ instance_id → Models i (handle_message i m) w')
              × (other ≡ instance_id → Models i m w'))
  unfolding on_message handle_message announce hold write
  writes_are_steps i m s (value, held) =
      let own : eqb i i ≡ true = ground arith in
      (
        λ a t encodes.
            rw
              (
                set_lem a t s encodes,
                stored-publish,
                stored-set,
                values.stored-put full t s.outside,
                peek-publish,
                memory.peek-set,
                eq_refl key,
                own,
              )
              (refl, ((a, lawful a t encodes, refl), refl)),
        rw
            (
              invalidate_lem s,
              stored-publish,
              stored-invalidate,
              values.stored-drop full s.outside,
              peek-publish,
              memory.peek-invalidate,
              eq_refl key,
              own,
            )
            (refl, (refl, refl)),
        λ other. (
          λ differs. elim (Bool-cases (other == instance_id)) [
            | inl same ↦ absurd (differs ((eq_iff other instance_id).0 same))
            | inr apart ↦
                rw (apart, stored-invalidate, memory.peek-invalidate, eq_refl key, own)
                  (value, refl)
          ],
          λ same. rw (same, eq_refl instance_id) (value, held),
        ),
      )
