-- ===== src/Consumer/Typed/Emission.antt =====
-- What a typed consumer emits for the entries of a round, put before what the later rounds emit.
use redfx.Common.{◌≡◌, refl, [], ◌∷◌, String}
use redfx.RedisError.{RedisError}
use redfx.Run.{Effect}
use redfx.Consumer.{running, stopped, crashed}
use redfx.Consumer.Typed.{Emitted, after_entries}

module _ {S E X B : Type 0} (of_redis : RedisError → E) (f : X → Effect S E B) where
  pub after_entries-cons :
      (b : B) (emitted : Emitted S E B) (next : S → Emitted S E B)
      → let (bs, status, s) = emitted in
        let (cs, after, s') = after_entries of_redis f emitted next in
        after_entries of_redis f (b ∷ bs, status, s) next ≡ (b ∷ cs, after, s')
  unfolding after_entries
  after_entries-cons b (bs, running, s) next = refl
  after_entries-cons b (bs, stopped e, s) next = refl
  after_entries-cons b (bs, crashed d, s) next = refl

  pub after_entries-none :
      (s : S) (next : S → Emitted S E B)
      → (after_entries of_redis f ([], running, s) next ≡ next s)
        × ((e : E) → after_entries of_redis f ([], stopped e, s) next ≡ ([], stopped e, s))
        × ((d : String) → after_entries of_redis f ([], crashed d, s) next ≡ ([], crashed d, s))
  unfolding after_entries
  after_entries-none s next = (refl, λ e. refl, λ d. refl)
