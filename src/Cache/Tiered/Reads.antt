-- ===== src/Cache/Tiered/Reads.antt =====
-- What a get of a tiered cache returns after a write, here or in another instance.
use redfx.Common.{
  ℕ, String, ◌≡◌, refl, ap, ◌∙◌, List, [], ◌∷◌, Option, none, some, ◌||◌, ◌&&◌, not, any, ◌==◌,
  if◌then◌else◌, Bool-cases, inl, inr, eq_refl, true, false, Bool,
}
use redfx.Durations.{Durations}
use redfx.Effect.{Exit, succeed}
use redfx.Run.{>>=-eq-succeed}
use redfx.Redis.Service.{RedisService}
use redfx.Script.{Cached}
use redfx.Cache.Options.{CacheError, CacheOptions, Runtime}
use redfx.Cache.Core.{l2_get, store, del, lookup_and_store}
use redfx.Cache.Tiered.{
  Memory, get, set, invalidate, refresh, publish_inv, remember, announced, on_message, listen,
}

-- How a `Cache` of the effect library keeps values, between two expiries: a get returns what it holds
-- without a lookup, and where it holds no value for the key it returns what the lookup does.
pub record Memoizes {W E A : Type 0} (l1 : Memory W E A) : Type 0 where
  pub peek : String → W → Option A
  pub hit_lem :
      (lookup : String → Cached W → Option (Exit (CacheError E) A × Cached W)) (key : String)
      (a : A) (s : Cached W)
      → peek key s.outside ≡ some a
      → l1.get lookup key s ≡ some (succeed a, s)
  pub peek-set :
      (key j : String) (a : A) (w : W)
      → peek j (l1.set key a w) ≡ (if key == j then some a else peek j w)
  pub peek-invalidate :
      (key j : String) (w : W)
      → peek j (l1.invalidate key w) ≡ (if key == j then none else peek j w)

module _ {W E A : Type 0} {durations : Durations} (r : RedisService W durations)
    (runtime : Runtime W) (options : CacheOptions W durations.DurationInput E A) (l1 : Memory W E A)
    (instance_id : String) (memory : Memoizes l1)
    (publish_steady : (channel message key : String) (w : W)
      → memory.peek key (r.publish channel message w).1 ≡ memory.peek key w) where
  open memory use {peek, hit_lem, peek-set, peek-invalidate}

  either :
      (b c : Bool) (x : Option A)
      → (if c then none else if b then none else x) ≡ (if b || c then none else x)
  either true true x = refl
  either true false x = refl
  either false c x = refl

  remembered :
      (rounds : ℕ) (key : String) (a : A) (s s' : Cached W)
      → announced r runtime options l1 instance_id key
          (remember r runtime options l1 instance_id key a s)
        ≡ s'
      → get r runtime options l1 instance_id rounds key s' ≡ some (succeed a, s')
  unfolding get
  remembered rounds key a s s' same = hit_lem (l2_get r runtime options rounds) key a s' (
      rw (← same) (
        publish_steady _ _ key (l1.set key a s.outside)
        ∙ peek-set key key a s.outside
        ∙ rw (eq_refl key) refl))

  -- The value that a set stored, or that a refresh returned, is what the next get returns, from the L1
  -- alone: with no command and no change of the state. After an invalidate, the L1 holds no value.
  pub written_is_read :
      (rounds : ℕ) (key : String) (value : A) (s s' : Cached W)
      → (set r runtime options l1 instance_id key value s ≡ (succeed tt, s')
          → get r runtime options l1 instance_id rounds key s' ≡ some (succeed value, s'))
        × (refresh r runtime options l1 instance_id key s ≡ (succeed value, s')
            → get r runtime options l1 instance_id rounds key s' ≡ some (succeed value, s'))
        × (invalidate r runtime options l1 instance_id key s ≡ (succeed tt, s')
            → peek key s'.outside ≡ none)
  unfolding set refresh invalidate publish_inv
  written_is_read rounds key value s s' = (
    λ done.
        let (a, _, announces) = >>=-eq-succeed (store r runtime options key value) _ s done in
        remembered rounds key value (store r runtime options key value s).1 s'
          (ap (λ p. p.1) announces),
    λ done.
        let (a, _, announces) = >>=-eq-succeed (lookup_and_store r runtime options key) _ s done in
        let (_, _, last) =
          >>=-eq-succeed (publish_inv r runtime options l1 instance_id key) _ _ announces in
        let one : a ≡ value = cc in
        rw (← one) (
          remembered rounds key a (lookup_and_store r runtime options key s).1 s'
            (ap (λ p. p.1) last)),
    λ done.
        let (a, _, announces) = >>=-eq-succeed (del r runtime options key) _ s done in
        let w = (del r runtime options key s).1.outside in
        rw (← ap (λ p. p.1) announces) (
          publish_steady _ _ key (l1.invalidate key w)
          ∙ peek-invalidate key key w
          ∙ rw (eq_refl key) refl),
  )

  -- After the listener has handled some messages, the L1 holds for a key what it held before, or nothing
  -- if one of them says that another instance changed the key; its own messages are skipped.
  pub listen_forgets :
      (messages : List (String × String)) (key : String) (w : W)
      → peek key (listen r runtime options l1 instance_id messages w)
        ≡ (if any (λ m. not (m.0 == instance_id) && m.1 == key) messages then none else peek key w)
  unfolding listen on_message
  listen_forgets [] key w = refl
  listen_forgets ((i, k) ∷ messages) key w =
      let rest = listen_forgets messages key (on_message r runtime options l1 instance_id i k w) in
      rest ∙ elim (Bool-cases (i == instance_id)) [
        | inl own ↦ rw own refl
        | inr other ↦ rw (other, peek-invalidate k key w) (either (k == key) _ (peek key w))
      ]
