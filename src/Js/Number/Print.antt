-- ===== src/Js/Number/Print.antt =====
-- `String(n)` of a number and of a bigint (ECMAScript, Number::toString with radix 10).
use redfx.Common.{
  ℕ, zero, suc, ◌+◌, ◌-◌, ◌/◌, ◌%◌, ◌≡◌, refl, ◌&&◌, String, List, [], ◌∷◌, ◌++◌, ltb, leb, eqb,
  length, if◌then◌else◌,
}
use redfx.Js.Text.{◌<>◌, digits, digits_text, show}
use redfx.Js.Number.Kind.{ℤ, pos, negsuc, Number, nan, infinity, neg_infinity, decimal, of_ℕ}

-- No trailing zeros behind the decimal point.
strip : ℕ → ℕ → ℕ × ℕ
strip m zero = (m, 0)
strip m (suc s) = let rest = strip (m / 10) s in if eqb (m % 10) 0 then rest else (m, suc s)

drop_zeros_right : List ℕ → List ℕ
drop_zeros_right [] = []
drop_zeros_right (d ∷ ds) = elim (drop_zeros_right ds) [
  | [] ↦ if eqb d 0 then [] else d ∷ []
  | e ∷ es ↦ d ∷ e ∷ es
]

zeros : ℕ → List ℕ
zeros zero = []
zeros (suc n) = 0 ∷ zeros n

-- The text with a decimal point behind its first n digits.
with_point : ℕ → List ℕ → String
unfolding digits_text
with_point n [] = ""
with_point zero ds = "." <> digits_text ds
with_point (suc n) (d ∷ ds) = digits_text (d ∷ []) <> with_point n ds

mantissa : List ℕ → String
unfolding digits_text
mantissa [] = ""
mantissa (d ∷ []) = digits_text (d ∷ [])
mantissa (d ∷ ds) = digits_text (d ∷ []) <> "." <> digits_text ds

-- A positive m divided by 10 to the power s, where s is 0 or m has no trailing zero.
positive_text : ℕ → ℕ → String
unfolding drop_zeros_right zeros with_point mantissa show
positive_text m zero =
    let ds = digits m in
    if leb (length ds) 21
    then show m
    else mantissa (drop_zeros_right ds) <> "e+" <> show (length ds - 1)
positive_text m (suc r) =
    let ds = digits m in
    let k = length ds in
    let s = suc r in
    if ltb s k && leb (k - s) 21
    then with_point (k - s) ds
    else if ltb s k
    then mantissa ds <> "e+" <> show (k - s - 1)
    else if leb k s && ltb (s - k) 6
    then "0." <> digits_text (zeros (s - k) ++ ds)
    else mantissa ds <> "e-" <> show (s + 1 - k)

magnitude_text : ℕ → ℕ → String
unfolding strip positive_text
magnitude_text m s = if eqb m 0 then "0" else let (n, t) = strip m s in positive_text n t

unfoldable pub number_text : Number → String
unfolding magnitude_text
number_text nan = "NaN"
number_text infinity = "Infinity"
number_text neg_infinity = "-Infinity"
number_text (decimal (pos m) s) = magnitude_text m s
number_text (decimal (negsuc m) s) = "-" <> magnitude_text (suc m) s

unfoldable pub bigint_text : ℤ → String
unfolding show
bigint_text (pos n) = show n
bigint_text (negsuc n) = "-" <> show (suc n)

printed :
    (number_text (decimal (pos 1250) 2) ≡ "12.5")
    × (number_text (decimal (negsuc 24) 4) ≡ "-0.0025")
    × (number_text (decimal (pos 15) 8) ≡ "1.5e-7")
    × (number_text (of_ℕ 1500000000000000000000) ≡ "1.5e+21")
    × (number_text (of_ℕ 0) ≡ "0")
    × (bigint_text (negsuc 41) ≡ "-42")
unfolding number_text bigint_text
printed = (refl, refl, refl, refl, refl, refl)
