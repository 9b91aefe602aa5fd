-- ===== src/Js/Text.antt =====
-- Texts of JavaScript. A text is a list of Unicode scalar values, so a lone surrogate, which a
-- JavaScript string may hold, is not a value of the model.
pub mod Show
use Prim.Native.Nat.{compare, Ordering}
use Prim.Native.Char.{Char, char, code, IsLt}
use Prim.Native.String
use redfx.Common.{
  ℕ, zero, suc, ◌+◌, ◌/◌, ◌%◌, String, ◌≡◌, refl, Bool, true, false, ◌&&◌, ◌||◌, List, [], ◌∷◌,
  ◌==◌, ltb, leb, eqb, any, if◌then◌else◌,
}

infixr 65 ◌<>◌
abbrev pub ◌<>◌ : String → String → String
s <> t = String.◌++◌ s t

abbrev pub codes : String → List ℕ
codes String.[] = []
codes (String.◌∷◌ c s) = code c ∷ codes s

-- The clauses of the prelude's `IsScalar`, as a type that can be decided.
abbrev BothBelow : Ordering → Ordering → Type 0
BothBelow Ordering.lt o = IsLt o
BothBelow Ordering.eq _ = ⊥
BothBelow Ordering.gt _ = ⊥

abbrev Scalar : Ordering → Ordering → Ordering → Type 0
Scalar Ordering.lt _ _ = Unit
Scalar Ordering.eq o p = BothBelow o p
Scalar Ordering.gt o p = BothBelow o p

dec_BothBelow : (o p : Ordering) → Dec (BothBelow o p)
dec_BothBelow Ordering.lt Ordering.lt = yes tt
dec_BothBelow Ordering.lt Ordering.eq = no (λ h. h)
dec_BothBelow Ordering.lt Ordering.gt = no (λ h. h)
dec_BothBelow Ordering.eq _ = no (λ h. h)
dec_BothBelow Ordering.gt _ = no (λ h. h)

dec_scalar : (o p q : Ordering) → Dec (Scalar o p q)
unfolding dec_BothBelow
dec_scalar Ordering.lt p q = yes tt
dec_scalar Ordering.eq p q = dec_BothBelow p q
dec_scalar Ordering.gt p q = dec_BothBelow p q

-- U+FFFD, the replacement character.
abbrev replacement : Char
replacement = char 65533 tt

-- The character of a scalar value; the replacement character for any other number.
unfoldable pub chr : ℕ → Char
unfolding dec_scalar
chr n = elim (dec_scalar (compare n 55296) (compare 57343 n) (compare n 1114112)) [
  | yes p ↦ char n p
  | no _ ↦ replacement
]

unfoldable pub text : List ℕ → String
unfolding chr
text [] = ""
text (c ∷ cs) = String.◌∷◌ (chr c) (text cs)

-- `s.toLowerCase()`, on ASCII letters only. The source compares its result with words over
-- a, e, f, i, l, n, r, s, t and u, of which no other character is an upper case.
lower_code : ℕ → ℕ
lower_code c = if leb b'A' c && leb c b'Z' then c + 32 else c

lower_codes : List ℕ → List ℕ
unfolding lower_code
lower_codes [] = []
lower_codes (c ∷ cs) = lower_code c ∷ lower_codes cs

unfoldable pub to_lower_case : String → String
unfolding lower_codes text
to_lower_case s = text (lower_codes (codes s))

-- White space and line terminators of ECMAScript, which `trim` and `Number` strip.
is_space : ℕ → Bool
is_space c =
    (leb 9 c && leb c 13)
    || eqb c 32
    || eqb c 160
    || eqb c 0x1680
    || (leb 0x2000 c && leb c 0x200a)
    || eqb c 0x2028
    || eqb c 0x2029
    || eqb c 0x202f
    || eqb c 0x205f
    || eqb c 0x3000
    || eqb c 0xfeff

drop_spaces : List ℕ → List ℕ
unfolding is_space
drop_spaces [] = []
drop_spaces (c ∷ cs) = if is_space c then drop_spaces cs else c ∷ cs

-- Trailing white space: a space is kept only if something is kept behind it.
drop_spaces_right : List ℕ → List ℕ
unfolding is_space
drop_spaces_right [] = []
drop_spaces_right (c ∷ cs) = elim (drop_spaces_right cs) [
  | [] ↦ if is_space c then [] else c ∷ []
  | d ∷ ds ↦ c ∷ d ∷ ds
]

unfoldable pub trim_codes : List ℕ → List ℕ
unfolding drop_spaces drop_spaces_right
trim_codes cs = drop_spaces_right (drop_spaces cs)

unfoldable pub trim : String → String
unfolding trim_codes text
trim s = text (trim_codes (codes s))

-- `big.includes(small)`
starts_with : List ℕ → List ℕ → Bool
starts_with cs [] = true
starts_with [] (d ∷ ds) = false
starts_with (c ∷ cs) (d ∷ ds) = eqb c d && starts_with cs ds

includes_codes : List ℕ → List ℕ → Bool
unfolding starts_with
includes_codes [] ds = starts_with [] ds
includes_codes (c ∷ cs) ds = starts_with (c ∷ cs) ds || includes_codes cs ds

unfoldable pub includes : String → String → Bool
unfolding includes_codes
includes big small = includes_codes (codes big) (codes small)

-- `s.split(" ")[0]`
first_codes : List ℕ → List ℕ
first_codes [] = []
first_codes (c ∷ cs) = let rest = first_codes cs in if eqb c 32 then [] else c ∷ rest

unfoldable pub first_word : String → String
unfolding first_codes text
first_word s = text (first_codes (codes s))

-- `new Set(words).has(s)`
unfoldable pub has : List String → String → Bool
has words s = any (λ w. w == s) words

-- The decimal digits of a natural number, most significant first.
unfoldable pub digits_fuel : ℕ → ℕ → List ℕ → List ℕ
digits_fuel zero n out = out
digits_fuel (suc fuel) n out =
    let more = digits_fuel fuel (n / 10) ((n % 10) ∷ out) in if ltb n 10 then n ∷ out else more

-- A number has at most as many digits as itself and one more.
unfoldable pub digits : ℕ → List ℕ
unfolding digits_fuel
digits n = digits_fuel (suc n) n []

unfoldable pub digits_text : List ℕ → String
unfolding chr
digits_text [] = ""
digits_text (d ∷ ds) = String.◌∷◌ (chr (48 + d)) (digits_text ds)

unfoldable pub show : ℕ → String
unfolding digits digits_text
show n = digits_text (digits n)

words_run :
    (to_lower_case "TrUe" ≡ "true")
    × (trim "  a b " ≡ "a b")
    × (includes "ERR BUSYGROUP x" "BUSYGROUP" ≡ true)
    × (first_word "WRONGTYPE bad" ≡ "WRONGTYPE")
    × (show 1209 ≡ "1209")
unfolding to_lower_case trim includes first_word show
words_run = (refl, refl, refl, refl, refl)
