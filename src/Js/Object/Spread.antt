-- ===== src/Js/Object/Spread.antt =====
-- Object spread, `{ ...a, ...b }`.
use redfx.Common.{
  String, ◌≡◌, refl, ◌∙◌, arith, eq_iff, [], ◌∷◌, Option, none, some, ◌==◌, if◌then◌else◌, false,
  Bool-cases, inl, inr,
}
use redfx.Js.Object.{Obj, lookup, define, define_all}
use redfx.Js.Object.Order.{IsObject, Precedes, define_all-IsObject}
use redfx.Js.Object.Laws.{lookup-define}

module _ {ℓ} {V : Type ℓ} where
  -- The properties of b are copied over those of a.
  unfoldable pub spread : Obj V → Obj V → Obj V
  unfolding define_all
  spread a b = define_all b a

  -- The last value of a name among these properties, or else what is given.
  abbrev last_or : String → Obj V → Option V → Option V
  last_or k [] old = old
  last_or k ((j, v) ∷ m) old = last_or k m (if j == k then some v else old)

  define_all-lookup :
      (k : String) (b a : Obj V) → lookup k (define_all b a) ≡ last_or k b (lookup k a)
  unfolding define_all
  define_all-lookup k [] a = refl
  define_all-lookup k ((j, v) ∷ b) a =
      define_all-lookup k b (define j v a) ∙ rw (lookup-define j k v a) refl

  lookup-spread : (k : String) (a b : Obj V) → lookup k (spread a b) ≡ last_or k b (lookup k a)
  unfolding spread
  lookup-spread k a b = define_all-lookup k b a

  -- The property of the later object, or else that of the earlier one.
  abbrev pub or_earlier : Option V → Option V → Option V
  or_earlier (some v) old = some v
  or_earlier none old = old

  pub or_earlier_assoc :
      (a b c : Option V) → or_earlier (or_earlier a b) c ≡ or_earlier a (or_earlier b c)
  or_earlier_assoc (some v) b c = refl
  or_earlier_assoc none b c = refl

  last_or-absent : (k : String) (m : Obj V) (old : Option V) → Precedes k m → last_or k m old ≡ old
  last_or-absent k [] old fits = refl
  last_or-absent k ((j, v) ∷ m) old ((differ, after), fits) =
      let other : (j == k) ≡ false = ground (arith, eq_iff j k) in
      rw other (last_or-absent k m old fits)

  last_or-lookup :
      (k : String) (m : Obj V) (old : Option V)
      → IsObject m
      → last_or k m old ≡ or_earlier (lookup k m) old
  unfolding lookup
  last_or-lookup k [] old ok = refl
  last_or-lookup k ((j, v) ∷ m) old (fits, ok) = elim (Bool-cases (j == k)) [
    | inl same ↦
        let one : j ≡ k = (eq_iff j k).0 same in
        rw same (last_or-absent k m (some v) (rw one at fits))
    | inr other ↦ rw other (last_or-lookup k m old ok)
  ]

  pub lookup-spread-IsObject :
      (k : String) (a b : Obj V)
      → IsObject b
      → lookup k (spread a b) ≡ or_earlier (lookup k b) (lookup k a)
  lookup-spread-IsObject k a b ok = lookup-spread k a b ∙ last_or-lookup k b (lookup k a) ok

  pub spread-IsObject : (a b : Obj V) → IsObject a → IsObject (spread a b)
  unfolding spread
  spread-IsObject a b ok = define_all-IsObject b a ok
