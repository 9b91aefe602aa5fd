-- ===== src/Ref/Options/Restamp.antt =====
-- What a restamped TTL leaves alone.
use redfx.Common.{String, ◌≡◌, refl, ap, ◌∙◌, Option, none, some, Bool-cases, inl, inr}
use redfx.Durations.{Durations}
use redfx.Effect.{Exit-cases, succeeded, failed, died}
use redfx.Run.{Effect, map_effect}
use redfx.Redis.Service.{RedisService}
use redfx.Ref.Options.{WriteOptions, restamp_ttl, expire_some, or_option}

pub map_effect-state :
    {W E B C : Type 0} (f : B → C) (m : Effect W E B) (w : W) → (map_effect f m w).1 ≡ (m w).1
map_effect-state f m w = elim (Exit-cases (m w).0) [
  | succeeded a same ↦ rw same refl
  | failed e same ↦ rw same refl
  | died d same ↦ rw same refl
]

module _ {W X : Type 0} {durations : Durations} (r : RedisService W durations) (observe : W → X)
    (key : String)
    (steady : (d : durations.DurationInput) (w : W)
      → observe (r.expire key d w).1 ≡ observe w) where
  expire_some-steady :
      (ttl : Option durations.DurationInput) (w : W)
      → observe (expire_some r key ttl w).1 ≡ observe w
  unfolding expire_some
  expire_some-steady none w = refl
  expire_some-steady (some d) w =
      ap observe (map_effect-state (λ _. tt) (r.expire key d) w) ∙ steady d w

  -- Whether it succeeds or not, what an EXPIRE does not change is as before.
  pub restamp_ttl-steady :
      (configured : Option durations.DurationInput) (opts : WriteOptions durations.DurationInput)
      (w : W)
      → observe (restamp_ttl r key configured opts w).1 ≡ observe w
  unfolding restamp_ttl
  restamp_ttl-steady configured opts w = elim (Bool-cases opts.keep_ttl) [
    | inl keep ↦ rw keep refl
    | inr restamp ↦ rw restamp (expire_some-steady (or_option opts.ttl configured) w)
  ]
