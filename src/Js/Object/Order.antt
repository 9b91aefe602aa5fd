-- ===== src/Js/Object/Order.antt =====
-- That the functions which build an object keep its names distinct and in the order of Object.entries.
use redfx.Common.{
  ℕ, String, ◌≡◌, refl, ◌≢◌, true, false, List, [], ◌∷◌, Option, none, some, arith, ◌==◌, eq_iff,
  All, inl, inr, Bool-cases, sym,
}
use redfx.Js.Object.{Obj, define, define_all, comes_before, index_before, index_of}

-- No property behind this name has the same one, or one that belongs before it.
abbrev pub Precedes {ℓ} : {V : Type ℓ} → String → Obj V → Type 0
Precedes k m = All (λ e. (k ≢ e.0) × (comes_before e.0 k ≡ false)) m

abbrev pub IsObject {ℓ} : {V : Type ℓ} → Obj V → Type 0
IsObject [] = Unit {0}
IsObject ((k, v) ∷ m) = Precedes k m × IsObject m

index_before_asym : (a b : Option ℕ) → index_before a b ≡ true → index_before b a ≡ false
unfolding index_before
index_before_asym none b h = cc
index_before_asym (some a) none h = refl
index_before_asym (some a) (some b) h = ground arith

index_before_trans :
    (a b c : Option ℕ) → index_before a b ≡ true → index_before b c ≡ true → index_before a c ≡ true
unfolding index_before
index_before_trans none b c h k = cc
index_before_trans (some a) none c h k = cc
index_before_trans (some a) (some b) none h k = refl
index_before_trans (some a) (some b) (some c) h k = ground arith

comes_before_asym : (i j : String) → comes_before i j ≡ true → comes_before j i ≡ false
unfolding comes_before
comes_before_asym i j h = index_before_asym (index_of i) (index_of j) h

comes_before_trans :
    (i j k : String) → comes_before i j ≡ true → comes_before j k ≡ true → comes_before i k ≡ true
unfolding comes_before
comes_before_trans i j k h l = index_before_trans (index_of i) (index_of j) (index_of k) h l

differ : {k j : String} → k ≡ j → (j == k) ≡ false → ⊥
differ {k} {j} same other = cc ((eq_iff j k).1 (sym same), other)

module _ {ℓ} {V : Type ℓ} where
  -- A name that belongs before the first one belongs before all.
  Precedes-before :
      (k j : String) (m : Obj V) → comes_before k j ≡ true → Precedes j m → Precedes k m
  Precedes-before k j [] first fits = fits
  Precedes-before k j ((i, w) ∷ m) first ((differ, after), fits) = (
    (
      λ same. cc,
      elim (Bool-cases (comes_before i k)) [
        | inl ahead ↦ cc (comes_before_trans i k j ahead first)
        | inr behind ↦ behind
      ],
    ),
    Precedes-before k j m first fits,
  )

  Precedes-define :
      (i k : String) (v : V) (m : Obj V)
      → i ≢ k
      → comes_before k i ≡ false
      → Precedes i m
      → Precedes i (define k v m)
  unfolding define
  Precedes-define i k v [] differ after fits = ((differ, after), tt)
  Precedes-define i k v ((j, w) ∷ m) differ after (first, fits) = elim (Bool-cases (j == k)) [
    | inl same ↦ rw same ((differ, after), fits)
    | inr other ↦ elim (Bool-cases (comes_before k j)) [
      | inl before ↦ rw (other, before) ((differ, after), (first, fits))
      | inr behind ↦ rw (other, behind) (first, Precedes-define i k v m differ after fits)
    ]
  ]

  define-IsObject : (k : String) (v : V) (m : Obj V) → IsObject m → IsObject (define k v m)
  unfolding define
  define-IsObject k v [] ok = (tt, tt)
  define-IsObject k v ((j, w) ∷ m) (fits, ok) = elim (Bool-cases (j == k)) [
    | inl same ↦ rw same (rw ((eq_iff j k).0 same) at fits, ok)
    | inr other ↦ elim (Bool-cases (comes_before k j)) [
      | inl before ↦
          rw (other, before)
            (
              (
                ((λ same. differ same other), comes_before_asym k j before),
                Precedes-before k j m before fits,
              ),
              (fits, ok),
            )
      | inr behind ↦
          rw (other, behind)
            (
              Precedes-define j k v m (λ same. differ (sym same) other) behind fits,
              define-IsObject k v m ok,
            )
    ]
  ]

  pub define_all-IsObject :
      (es : List (String × V)) (m : Obj V) → IsObject m → IsObject (define_all es m)
  unfolding define_all
  define_all-IsObject [] m ok = ok
  define_all-IsObject ((k, v) ∷ es) m ok =
      define_all-IsObject es (define k v m) (define-IsObject k v m ok)
