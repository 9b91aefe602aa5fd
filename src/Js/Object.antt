-- ===== src/Js/Object.antt =====
-- Plain objects of JavaScript (`Record<string, V>`), as the list of their own properties in the
-- order of `Object.entries`.
pub mod Laws
pub mod Order
pub mod Spread
use redfx.Js.Text.{codes}
use redfx.Common.{
  ℕ, zero, suc, ◌+◌, ◌-◌, ◌*◌, String, Bool, true, false, ◌&&◌, List, [], ◌∷◌, Option, none, some,
  ◌==◌, ltb, leb, eqb, if◌then◌else◌,
}

abbrev pub Obj {ℓ} : Type ℓ → Type ℓ
Obj V = List (String × V)

-- The property that every plain object inherits as an accessor.
abbrev pub proto : String
proto = "__proto__"

index_value : ℕ → List ℕ → Option ℕ
index_value n [] = some n
index_value n (c ∷ cs) =
    let rest = index_value (n * 10 + (c - 48)) cs in if leb 48 c && leb c 57 then rest else none

below_limit : ℕ → Option ℕ
below_limit n = if ltb n 4294967295 then some n else none

canonical : List ℕ → Option ℕ
unfolding index_value below_limit
canonical [] = none
canonical (c ∷ []) = index_value 0 (c ∷ [])
canonical (c ∷ d ∷ cs) =
    if eqb c 48
    then none
    else elim (index_value 0 (c ∷ d ∷ cs)) [ none ↦ none | some n ↦ below_limit n ]

-- The array index that a property name is, if it is one.
unfoldable pub index_of : String → Option ℕ
unfolding canonical
index_of k = canonical (codes k)

index_before : Option ℕ → Option ℕ → Bool
index_before none _ = false
index_before (some a) none = true
index_before (some a) (some b) = ltb a b

-- Whether a new property k comes before the property j: array indices come first, in order.
unfoldable pub comes_before : String → String → Bool
unfolding index_before index_of
comes_before k j = index_before (index_of k) (index_of j)

module _ {ℓ} {V : Type ℓ} where
  unfoldable pub lookup : String → Obj V → Option V
  lookup k [] = none
  lookup k ((j, v) ∷ m) = if j == k then some v else lookup k m

  -- An own property is created or overwritten.
  unfoldable pub define : String → V → Obj V → Obj V
  define k v [] = (k, v) ∷ []
  define k v ((j, w) ∷ m) =
      if j == k
      then (k, v) ∷ m
      else if comes_before k j
      then (k, v) ∷ (j, w) ∷ m
      else (j, w) ∷ define k v m

  -- `out[k] = v` for a v that is no object: the inherited setter of `__proto__` ignores it.
  unfoldable pub assign : String → V → Obj V → Obj V
  assign k v m = if k == proto then m else define k v m

  pub define_all : List (String × V) → Obj V → Obj V
  unfolding define
  define_all [] m = m
  define_all ((k, v) ∷ es) m = define_all es (define k v m)

  -- `Object.fromEntries(es)` creates own properties, `__proto__` too.
  unfoldable pub from_entries : List (String × V) → Obj V
  unfolding define_all
  from_entries es = define_all es []

  unfoldable pub assign_all : List (String × V) → Obj V → Obj V
  unfolding assign
  assign_all [] m = m
  assign_all ((k, v) ∷ es) m = assign_all es (assign k v m)
