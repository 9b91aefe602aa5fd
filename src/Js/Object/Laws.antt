-- ===== src/Js/Object/Laws.antt =====
-- Reading a property after writes.
use redfx.Common.{
  String, ◌≡◌, refl, ◌≢◌, ◌∙◌, List, [], ◌∷◌, some, arith, ◌==◌, eq_iff, All, inl, inr, Bool-cases,
  if◌then◌else◌,
}
use redfx.Js.Object.{Obj, proto, lookup, define, assign, define_all, from_entries, assign_all}

module _ {ℓ} {V : Type ℓ} where
  pub lookup-define :
      (k j : String) (v : V) (m : Obj V)
      → lookup j (define k v m) ≡ (if k == j then some v else lookup j m)
  unfolding lookup define
  lookup-define k j v [] = refl
  lookup-define k j v ((i, w) ∷ m) =
      ground (arith, eq_iff k j, eq_iff i k, eq_iff i j, lookup-define k j v m)

  pub lookup-assign :
      (k j : String) (v : V) (m : Obj V)
      → k ≢ proto
      → lookup j (assign k v m) ≡ (if k == j then some v else lookup j m)
  unfolding assign
  lookup-assign k j v m h = ground (arith, eq_iff k proto, lookup-define k j v m)

  -- Without `__proto__` among the names, assignments and `Object.fromEntries` build one object.
  define_all-eq-assign_all :
      (es : List (String × V)) (m : Obj V)
      → All (λ e. e.0 ≢ proto) es
      → define_all es m ≡ assign_all es m
  unfolding define_all assign_all
  define_all-eq-assign_all [] m h = refl
  define_all-eq-assign_all ((k, v) ∷ es) m (h, hs) = elim (Bool-cases (k == proto)) [
    | inl same ↦ absurd (h ((eq_iff k proto).0 same))
    | inr other ↦ rw other (define_all-eq-assign_all es (define k v m) hs)
  ]

  pub from_entries-eq-assign_all :
      (es : List (String × V)) → All (λ e. e.0 ≢ proto) es → from_entries es ≡ assign_all es []
  unfolding from_entries
  from_entries-eq-assign_all es h = define_all-eq-assign_all es [] h

  lookup-proto-assign :
      (k : String) (v : V) (m : Obj V) → lookup proto (assign k v m) ≡ lookup proto m
  unfolding assign
  lookup-proto-assign k v m = ground (arith, eq_iff k proto, lookup-define k proto v m)

  -- Assignments never make an own property `__proto__`.
  pub lookup-proto-assign_all :
      (es : List (String × V)) (m : Obj V) → lookup proto (assign_all es m) ≡ lookup proto m
  unfolding assign_all
  lookup-proto-assign_all [] m = refl
  lookup-proto-assign_all ((k, v) ∷ es) m =
      lookup-proto-assign_all es (assign k v m) ∙ lookup-proto-assign k v m
