-- ===== src/Js/Text/Show.antt =====
-- The decimal text of a natural number determines the number.
use Prim.Native.Nat.{compare, Ordering}
use Prim.Native.Char.{char, code}
use mathlib.Core.Path.{subst}
use redfx.Common.{
  ℕ, zero, suc, ◌+◌, ◌*◌, ◌/◌, ◌%◌, ◌<◌, ◌≡◌, refl, ap, sym, ◌∙◌, List, [], ◌∷◌, map, arith, All,
}
use redfx.Js.Text.{
  codes, chr, dec_scalar, Scalar, replacement, digits_fuel, digits, digits_text, show,
}

-- The number that decimal digits spell behind n.
pub value : ℕ → List ℕ → ℕ
value n [] = n
value n (d ∷ ds) = value (n * 10 + d) ds

value-digits_fuel :
    (fuel n : ℕ) (out : List ℕ) → n < fuel → value 0 (digits_fuel fuel n out) ≡ value n out
unfolding value digits_fuel
value-digits_fuel zero n out h = absurd (omega arith)
value-digits_fuel (suc fuel) n out h =
    ground (arith, value-digits_fuel fuel (n / 10) ((n % 10) ∷ out))

digits_fuel-IsDigits :
    (fuel n : ℕ) (out : List ℕ)
    → n < fuel
    → All (λ d. d < 10) out
    → All (λ d. d < 10) (digits_fuel fuel n out)
unfolding digits_fuel
digits_fuel-IsDigits zero n out h hs = absurd (omega arith)
digits_fuel-IsDigits (suc fuel) n out h hs =
    ground (arith, digits_fuel-IsDigits fuel (n / 10) ((n % 10) ∷ out))

compare-lt : (a b : ℕ) → a < b → compare a b ≡ Ordering.lt
compare-lt a b h = ground arith

code-chr : (n : ℕ) → n < 55296 → code (chr n) ≡ n
unfolding chr
code-chr n h =
    elim (dec_scalar (compare n 55296) (compare 57343 n) (compare n 1114112))
      as (λ d. code (elim d [ yes p ↦ char n p | no _ ↦ replacement ]) ≡ n) [
        | yes p ↦ refl
        | no outside ↦ absurd (
            outside (
              subst (λ o. Scalar o (compare 57343 n) (compare n 1114112))
                (sym (compare-lt n 55296 h)) tt))
      ]

codes-digits_text :
    (ds : List ℕ) → All (λ d. d < 10) ds → codes (digits_text ds) ≡ map (λ d. 48 + d) ds
unfolding digits_text
codes-digits_text [] h = refl
codes-digits_text (d ∷ ds) (p, h) = rw (code-chr (48 + d) (omega arith), codes-digits_text ds h)

map-digits_injective :
    (ds es : List ℕ) → map (λ (d : ℕ). 48 + d) ds ≡ map (λ (d : ℕ). 48 + d) es → ds ≡ es
map-digits_injective [] [] h = refl
map-digits_injective [] (e ∷ es) h = cc
map-digits_injective (d ∷ ds) [] h = cc
map-digits_injective (d ∷ ds) (e ∷ es) h = ground (arith, map-digits_injective ds es)

-- Two numbers with the same decimal text are equal.
pub show_injective : (m n : ℕ) → show m ≡ show n → m ≡ n
unfolding show digits
show_injective m n h =
    let ds = digits_fuel-IsDigits (suc m) m [] (omega arith) tt in
    let es = digits_fuel-IsDigits (suc n) n [] (omega arith) tt in
    let same =
      map-digits_injective (digits m) (digits n)
        (sym (codes-digits_text (digits m) ds) ∙ ap codes h ∙ codes-digits_text (digits n) es) in
    unfold value in
    (sym (value-digits_fuel (suc m) m [] (omega arith))
      ∙ ap (value 0) same
      ∙ value-digits_fuel (suc n) n [] (omega arith))
