-- ===== src/Js/Number/Parse.antt =====
-- `Number(s)` of a text (ECMAScript, StringToNumber).
use redfx.Common.{
  ℕ, zero, suc, ◌+◌, ◌-◌, ◌*◌, ◌^◌, ◌≡◌, refl, Bool, true, false, ◌&&◌, ◌||◌, String, List, [], ◌∷◌,
  ◌++◌, Option, none, some, ltb, leb, eqb, length, if◌then◌else◌,
}
use redfx.Js.Text.{codes, trim_codes}
use redfx.Js.Number.Kind.{ℤ, pos, negsuc, Number, nan, infinity, neg_infinity, decimal, of_ℕ}

infixl 5 ◌>>=◌
abbrev ◌>>=◌ {ℓ κ} : {A : Type ℓ} {B : Type κ} → Option A → (A → Option B) → Option B
none >>= f = none
some a >>= f = f a

-- The value of a digit, in any radix up to 16; 16 for any other character.
digit_value : ℕ → ℕ
digit_value c =
    if leb 48 c && leb c 57
    then c - 48
    else if leb 65 c && leb c 70
    then c - 55
    else if leb 97 c && leb c 102
    then c - 87
    else 16

-- The digits in front, and the rest.
span_digits : List ℕ → List ℕ × List ℕ
span_digits [] = ([], [])
span_digits (c ∷ cs) =
    let (ds, rest) = span_digits cs in
    if leb 48 c && leb c 57 then ((c - 48) ∷ ds, rest) else ([], c ∷ cs)

value : ℕ → List ℕ → ℕ
value n [] = n
value n (d ∷ ds) = value (n * 10 + d) ds

radix_value : ℕ → ℕ → List ℕ → Option ℕ
unfolding digit_value
radix_value r n [] = some n
radix_value r n (c ∷ cs) =
    let d = digit_value c in
    let rest = radix_value r (n * r + d) cs in if ltb d r then rest else none

radix_number : ℕ → List ℕ → Number
unfolding radix_value
radix_number r [] = nan
radix_number r (c ∷ cs) = elim (radix_value r 0 (c ∷ cs)) [ none ↦ nan | some n ↦ of_ℕ n ]

-- A sign in front: whether it is a minus, and the rest.
sign : List ℕ → Bool × List ℕ
sign [] = (false, [])
sign (c ∷ cs) =
    if eqb c b'-' then (true, cs) else if eqb c b'+' then (false, cs) else (false, c ∷ cs)

-- `.` and its digits, if they are there.
fraction : List ℕ → List ℕ × List ℕ
unfolding span_digits
fraction [] = ([], [])
fraction (c ∷ cs) = if eqb c b'.' then span_digits cs else ([], c ∷ cs)

-- Digits up to the end, at least one.
all_digits : List ℕ → Option ℕ
unfolding span_digits value
all_digits [] = none
all_digits (c ∷ cs) =
    let (ds, rest) = span_digits (c ∷ cs) in elim rest [ [] ↦ some (value 0 ds) | d ∷ more ↦ none ]

-- The exponent part up to the end: its sign and value.
exponent : List ℕ → Option (Bool × ℕ)
unfolding all_digits sign
exponent [] = some (false, 0)
exponent (c ∷ cs) =
    if eqb c b'e' || eqb c b'E'
    then (let (minus, rest) = sign cs in do n ← all_digits rest; some (minus, n))
    else none

magnitude : List ℕ → Option (ℕ × ℕ)
unfolding fraction exponent span_digits value
magnitude cs =
    let (whole, r) = span_digits cs in
    let (part, r') = fraction r in
    if eqb (length whole + length part) 0 then none else (do
      (minus, x) ← exponent r'
      let m = value 0 (whole ++ part)
      some (if minus then (m, length part + x) else (m * 10 ^ x, length part)))

negate : ℕ → ℤ
negate zero = pos 0
negate (suc n) = negsuc n

signed : Bool → Option (ℕ × ℕ) → Number
unfolding negate
signed minus none = nan
signed true (some (m, s)) = decimal (negate m) s
signed false (some (m, s)) = decimal (pos m) s

infinity_codes : List ℕ
infinity_codes = codes "Infinity"

same : List ℕ → List ℕ → Bool
same [] [] = true
same (c ∷ cs) (d ∷ ds) = eqb c d && same cs ds
same _ _ = false

decimal_number : List ℕ → Number
unfolding sign magnitude signed same infinity_codes
decimal_number cs =
    let (minus, rest) = sign cs in
    if same rest infinity_codes
    then (if minus then neg_infinity else infinity)
    else signed minus (magnitude rest)

-- The radix that a prefix 0x, 0o or 0b names.
radix_of : ℕ → Option ℕ
radix_of c =
    if eqb c b'x' || eqb c b'X'
    then some 16
    else if eqb c b'o' || eqb c b'O'
    then some 8
    else if eqb c b'b' || eqb c b'B'
    then some 2
    else none

numeric : List ℕ → Number
unfolding decimal_number radix_number radix_of
numeric [] = of_ℕ 0
numeric (c ∷ []) = decimal_number (c ∷ [])
numeric (c ∷ d ∷ cs) =
    if eqb c b'0'
    then elim (radix_of d) [ some r ↦ radix_number r cs | none ↦ decimal_number (c ∷ d ∷ cs) ]
    else decimal_number (c ∷ d ∷ cs)

unfoldable pub to_number : String → Number
unfolding numeric trim_codes
to_number s = numeric (trim_codes (codes s))

parsed :
    (to_number " 12.50 " ≡ decimal (pos 1250) 2)
    × (to_number "" ≡ of_ℕ 0)
    × (to_number "-3e2" ≡ decimal (negsuc 299) 0)
    × (to_number "25e-1" ≡ decimal (pos 25) 1)
    × (to_number "0x1F" ≡ of_ℕ 31)
    × (to_number "inf" ≡ nan)
    × (to_number "." ≡ nan)
    × (to_number "-Infinity" ≡ neg_infinity)
    × (to_number "1-2" ≡ nan)
unfolding to_number
parsed = (refl, refl, refl, refl, refl, refl, refl, refl, refl)
