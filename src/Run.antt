-- ===== src/Run.antt =====
-- Effects of the effect library that touch the outside: a state W of the outside (the server, the
-- connections, the clock) goes in, and an outcome with the new state comes out.
use redfx.Common.{◌≡◌, Bool, List, [], ◌∷◌, if◌then◌else◌}
use redfx.Effect.{Exit, succeed, fail, die, map_error, Exit-cases, succeeded, failed, died}
use redfx.RedisError.{RedisError, DecodeError, decode_error}

abbrev pub Effect : Type 0 → Type 0 → Type 0 → Type 0
Effect W E A = W → Exit E A × W

module _ {W E A : Type 0} where
  -- `Effect.succeed`
  abbrev pub pure : A → Effect W E A
  pure a w = (succeed a, w)

  abbrev pub raise : E → Effect W E A
  raise e w = (fail e, w)

  abbrev pub lift : Exit E A → Effect W E A
  lift r w = (r, w)

  abbrev pub handle : (E → Bool) → (E → Effect W E A) → Exit E A → Effect W E A
  handle test h (succeed a) w = (succeed a, w)
  handle test h (fail e) w = if test e then h e w else (fail e, w)
  handle test h (die d) w = (die d, w)

  -- `Effect.catchIf(test, h)`
  abbrev pub catch_if : (E → Bool) → (E → Effect W E A) → Effect W E A → Effect W E A
  catch_if test h m w = let (r, w') = m w in handle test h r w'

module _ {W E A B : Type 0} where
  abbrev pub continue : Exit E A → (A → Effect W E B) → Effect W E B
  continue (succeed a) f w = f a w
  continue (fail e) f w = (fail e, w)
  continue (die d) f w = (die d, w)

  infixl 5 ◌>>=◌ ◌>>◌
  -- `Effect.flatMap`
  abbrev pub ◌>>=◌ : Effect W E A → (A → Effect W E B) → Effect W E B
  ◌>>=◌ m f w = let (r, w') = m w in continue r f w'

  abbrev pub ◌>>◌ : Effect W E A → Effect W E B → Effect W E B
  m >> k = m >>= λ _. k

  -- `Effect.map`
  abbrev pub map_effect : (A → B) → Effect W E A → Effect W E B
  map_effect f m = m >>= λ a. pure (f a)

-- If a sequence succeeds, so did its first effect.
pub >>=-eq-succeed :
    {W E A B : Type 0} (m : Effect W E A) (f : A → Effect W E B) (w : W) {b : B} {w' : W}
    → (m >>= f) w ≡ (succeed b, w')
    → (a : A) × ((m w).0 ≡ succeed a) × (f a (m w).1 ≡ (succeed b, w'))
>>=-eq-succeed m f w h = elim (Exit-cases (m w).0) [
  | succeeded a same ↦ (a, same, rw same at h)
  | failed e same ↦ cc (rw same at h)
  | died d same ↦ cc (rw same at h)
]

-- `Effect.asVoid`
abbrev pub as_void : {W E A : Type 0} → Effect W E A → Effect W E (Unit {0})
as_void m = map_effect (λ _. tt) m

-- The outcome of a decoder, in the error type of the service.
abbrev pub decoded : {W A : Type 0} → Exit DecodeError A → Effect W RedisError A
decoded r = lift (map_error decode_error r)

-- `Effect.forEach(xs, f)`
unfoldable pub for_each_effect :
    {W E A B : Type 0} → (A → Effect W E B) → List A → Effect W E (List B)
for_each_effect f [] = pure []
for_each_effect f (x ∷ xs) = f x >>= λ y. for_each_effect f xs >>= λ ys. pure (y ∷ ys)
