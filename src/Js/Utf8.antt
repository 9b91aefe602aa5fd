-- ===== src/Js/Utf8.antt =====
-- `new TextDecoder().decode(bytes)`: the UTF-8 decoder of the Encoding Standard, which writes
-- U+FFFD for an error and drops a byte order mark in front.
use redfx.Common.{
  ℕ, zero, suc, ◌+◌, ◌-◌, ◌*◌, ◌%◌, ◌≡◌, refl, ◌&&◌, String, List, [], ◌∷◌, ◌++◌, leb, eqb,
  if◌then◌else◌,
}
use redfx.Js.Text.{text}

-- The continuation bytes that are missing, the range of the next one, and the code point so far.
record State : Type 0 where
  needed : ℕ
  lower : ℕ
  upper : ℕ
  point : ℕ

abbrev ground_state : State
ground_state = record { needed = 0; lower = 0x80; upper = 0xbf; point = 0 }

lead : ℕ → State × List ℕ
lead b =
    if leb b 0x7f
    then (ground_state, b ∷ [])
    else if leb 0xc2 b && leb b 0xdf
    then (record ground_state { needed = 1; point = b % 32 }, [])
    else if leb 0xe0 b && leb b 0xef
    then (
      record {
        needed = 2;
        lower = if eqb b 0xe0 then 0xa0 else 0x80;
        upper = if eqb b 0xed then 0x9f else 0xbf;
        point = b % 16;
      },
      [],
    )
    else if leb 0xf0 b && leb b 0xf4
    then (
      record {
        needed = 3;
        lower = if eqb b 0xf0 then 0x90 else 0x80;
        upper = if eqb b 0xf4 then 0x8f else 0xbf;
        point = b % 8;
      },
      [],
    )
    else (ground_state, 0xfffd ∷ [])

continue : ℕ → ℕ → State × List ℕ
continue zero point = (ground_state, point ∷ [])
continue (suc n) point = (record ground_state { needed = suc n; point = point }, [])

after_error : State × List ℕ → State × List ℕ
after_error (s, out) = (s, 0xfffd ∷ out)

-- A byte out of range is an error, and is read again as a lead byte.
step : State → ℕ → State × List ℕ
unfolding lead continue after_error
step s b =
    if eqb s.needed 0
    then lead b
    else if leb s.lower b && leb b s.upper
    then continue (s.needed - 1) (s.point * 64 + b % 64)
    else after_error (lead b)

run : State → List ℕ → List ℕ
unfolding step
run s [] = if eqb s.needed 0 then [] else 0xfffd ∷ []
run s (b ∷ bs) = let (s', out) = step s b in out ++ run s' bs

drop_mark : List ℕ → List ℕ
drop_mark [] = []
drop_mark (c ∷ cs) = if eqb c 0xfeff then cs else c ∷ cs

unfoldable pub decode : List ℕ → String
unfolding run drop_mark text
decode bytes = text (drop_mark (run ground_state bytes))

decoded :
    (decode (0x41 ∷ 0xc3 ∷ 0xa9 ∷ 0xe2 ∷ 0x82 ∷ 0xac ∷ []) ≡ "Aé€")
    × (decode (0xef ∷ 0xbb ∷ 0xbf ∷ 0x41 ∷ []) ≡ "A")
    × (decode (0xe2 ∷ 0x41 ∷ 0xff ∷ []) ≡ "�A�")
unfolding decode
decoded = (refl, refl, refl)
