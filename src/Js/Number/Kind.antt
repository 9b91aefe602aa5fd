-- ===== src/Js/Number/Kind.antt =====
-- The values of `number` and `bigint`, their comparisons and rounding.
use redfx.Common.{
  ℕ, suc, ◌+◌, ◌-◌, ◌*◌, ◌/◌, ◌^◌, ◌≡◌, refl, Bool, true, false, ltb, leb, eqb, if◌then◌else◌,
}

-- `negsuc n` is -(n + 1).
pub data ℤ : Type 0 where
  pos : ℕ → ℤ
  negsuc : ℕ → ℤ

abbrev pub pos_part : ℤ → ℕ
pos_part (pos n) = n
pos_part (negsuc n) = 0

abbrev pub neg_part : ℤ → ℕ
neg_part (pos n) = 0
neg_part (negsuc n) = suc n

-- `decimal m s` is m divided by 10 to the power s.
pub data Number : Type 0 where
  nan infinity neg_infinity : Number
  decimal : ℤ → ℕ → Number

abbrev pub of_ℕ : ℕ → Number
of_ℕ n = decimal (pos n) 0

-- `Number(v)` of a bigint
abbrev pub of_bigint : ℤ → Number
of_bigint z = decimal z 0

abbrev pub is_nan : Number → Bool
is_nan nan = true
is_nan _ = false

abbrev pub ltb_ℤ : ℤ → ℤ → Bool
ltb_ℤ a b = ltb (pos_part a + neg_part b) (pos_part b + neg_part a)

abbrev pub eqb_ℤ : ℤ → ℤ → Bool
eqb_ℤ (pos a) (pos b) = eqb a b
eqb_ℤ (negsuc a) (negsuc b) = eqb a b
eqb_ℤ _ _ = false

abbrev pub scale : ℤ → ℕ → ℤ
scale (pos a) k = pos (a * k)
scale (negsuc a) k = if eqb k 0 then pos 0 else negsuc (suc a * k - 1)

-- `a < b`
unfoldable pub less : Number → Number → Bool
less nan _ = false
less _ nan = false
less infinity _ = false
less neg_infinity neg_infinity = false
less neg_infinity _ = true
less (decimal a s) infinity = true
less (decimal a s) neg_infinity = false
less (decimal a s) (decimal b t) = ltb_ℤ (scale a (10 ^ t)) (scale b (10 ^ s))

-- `n < 0`, `n !== 0` and `n === -k`
abbrev pub is_negative : Number → Bool
is_negative neg_infinity = true
is_negative (decimal (negsuc a) s) = true
is_negative _ = false

abbrev pub is_zero : Number → Bool
is_zero (decimal (pos a) s) = eqb a 0
is_zero _ = false

unfoldable pub equals : Number → ℤ → Bool
equals (decimal a s) z = eqb_ℤ a (scale z (10 ^ s))
equals _ z = false

-- n rounded up to a multiple of the positive d, divided by d
abbrev pub div_up : ℕ → ℕ → ℕ
div_up n d = (n + (d - 1)) / d

-- `Math.ceil`
unfoldable pub ceil : Number → Number
ceil (decimal (pos m) s) = of_ℕ (div_up m (10 ^ s))
ceil (decimal (negsuc m) s) =
    let q : ℕ = suc m / 10 ^ s in if eqb q 0 then of_ℕ 0 else decimal (negsuc (q - 1)) 0
ceil n = n

-- `Math.floor`
unfoldable pub floor : Number → Number
floor (decimal (pos m) s) = of_ℕ (m / 10 ^ s)
floor (decimal (negsuc m) s) = decimal (negsuc (div_up (suc m) (10 ^ s) - 1)) 0
floor n = n

-- `Math.max(k, n)` for a natural number k
unfoldable pub max_of : ℕ → Number → Number
max_of k (decimal (pos m) s) = if leb (k * 10 ^ s) m then decimal (pos m) s else of_ℕ k
max_of k (decimal (negsuc m) s) = of_ℕ k
max_of k neg_infinity = of_ℕ k
max_of k infinity = infinity
max_of k nan = nan

-- `n / 1000`
abbrev pub thousandth : Number → Number
thousandth (decimal m s) = decimal m (s + 3)
thousandth n = n

comparisons :
    (less (decimal (pos 15) 1) (of_ℕ 2) ≡ true)
    × (equals (decimal (negsuc 19) 1) (negsuc 1) ≡ true)
    × (ceil (decimal (pos 1001) 3) ≡ of_ℕ 2)
    × (floor (decimal (negsuc 0) 1) ≡ decimal (negsuc 0) 0)
    × (max_of 1 (of_ℕ 0) ≡ of_ℕ 1)
unfolding less equals ceil floor max_of
comparisons = (refl, refl, refl, refl, refl)
