-- ===== src/Js/Json.antt =====
-- `JSON.stringify(s)` of a text.
use redfx.Common.{ℕ, ◌+◌, ◌/◌, ◌%◌, ◌≡◌, refl, String, List, [], ◌∷◌, ◌++◌, ltb, eqb, if◌then◌else◌}
use redfx.Js.Text.{codes, text}

hex_digit : ℕ → ℕ
hex_digit d = if ltb d 10 then 48 + d else 87 + d

escape : ℕ → List ℕ
unfolding hex_digit
escape c =
    if eqb c b'"'
    then b'\\' ∷ b'"' ∷ []
    else if eqb c b'\\'
    then b'\\' ∷ b'\\' ∷ []
    else if eqb c 8
    then b'\\' ∷ b'b' ∷ []
    else if eqb c 9
    then b'\\' ∷ b't' ∷ []
    else if eqb c 10
    then b'\\' ∷ b'n' ∷ []
    else if eqb c 12
    then b'\\' ∷ b'f' ∷ []
    else if eqb c 13
    then b'\\' ∷ b'r' ∷ []
    else if ltb c 32
    then b'\\' ∷ b'u' ∷ b'0' ∷ b'0' ∷ hex_digit (c / 16) ∷ hex_digit (c % 16) ∷ []
    else c ∷ []

escape_all : List ℕ → List ℕ
unfolding escape
escape_all [] = []
escape_all (c ∷ cs) = escape c ++ escape_all cs

unfoldable pub stringify : String → String
unfolding escape_all text
stringify s = text (b'"' ∷ (escape_all (codes s) ++ b'"' ∷ []))

quoted : stringify "a\"b" ≡ "\"a\\\"b\""
unfolding stringify
quoted = refl
