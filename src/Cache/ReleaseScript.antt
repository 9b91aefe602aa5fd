-- ===== src/Cache/ReleaseScript.antt =====
-- The script that releases a lock (`releaseLua` of packages/core/src/Cache.ts), as a program in the part of
-- Lua that it is written in, with its text and what it does on a server.
use redfx.Common.{
  ℕ, zero, suc, String, Bool, true, false, List, [], ◌∷◌, Option, none, some, if◌then◌else◌, ◌==◌,
  eqb, ◌≡◌, ◌≢◌, refl, ap, ◌∙◌, eq_refl, eq_iff, Option-cases, Bool-cases, inl, inr,
}
use redfx.Js.Text.{◌<>◌, show}

pub data Expr : Type 0 where
  -- `KEYS[i]` and `ARGV[i]`
  key_at arg_at : ℕ → Expr
  number : ℕ → Expr
  -- `redis.call(name, e)`
  redis_call : String → Expr → Expr
  equals : Expr → Expr → Expr

pub data Block : Type 0 where
  gives : Expr → Block
  if_else : Expr → Block → Block → Block

unfoldable pub expr_text : Expr → String
expr_text (key_at i) = "KEYS[" <> show i <> "]"
expr_text (arg_at i) = "ARGV[" <> show i <> "]"
expr_text (number n) = show n
expr_text (redis_call name e) = "redis.call('" <> name <> "'," <> expr_text e <> ")"
expr_text (equals a b) = expr_text a <> "==" <> expr_text b

unfoldable pub block_text : Block → String
block_text (gives e) = "return " <> expr_text e
block_text (if_else c a b) =
    "if " <> expr_text c <> " then " <> block_text a <> " else " <> block_text b <> " end"

abbrev pub release_program : Block
release_program =
    if_else (equals (redis_call "GET" (key_at 1)) (arg_at 1)) (gives (redis_call "DEL" (key_at 1)))
      (gives (number 0))

abbrev pub release_lua : String
release_lua =
    "if redis.call('GET',KEYS[1])==ARGV[1] then return redis.call('DEL',KEYS[1]) else return 0 end"

-- The text of the source is that of the program.
pub release_lua-text : release_lua ≡ block_text release_program
unfolding block_text expr_text show
release_lua-text = refl

-- A value of Lua.
pub data Value : Type 0 where
  nil : Value
  text : String → Value
  integer : ℕ → Value
  boolean : Bool → Value

unfoldable pub same : Value → Value → Bool
same nil nil = true
same (text a) (text b) = a == b
same (integer m) (integer n) = eqb m n
same (boolean true) (boolean c) = c
same (boolean false) (boolean true) = false
same (boolean false) (boolean false) = true
same _ _ = false

unfoldable pub truthy : Value → Bool
truthy nil = false
truthy (boolean b) = b
truthy _ = true

-- The i-th of some texts, from 1.
unfoldable pub nth : List String → ℕ → Value
nth [] i = nil
nth (s ∷ ss) zero = nil
nth (s ∷ ss) (suc zero) = text s
nth (s ∷ ss) (suc (suc i)) = nth ss (suc i)

-- `call` is what a command of the server with one argument does in a script.
module _ {W : Type 0} (call : String → Value → W → Value × W) (keys args : List String) where
  unfoldable pub eval : Expr → W → Value × W
  eval (key_at i) w = (nth keys i, w)
  eval (arg_at i) w = (nth args i, w)
  eval (number n) w = (integer n, w)
  eval (redis_call name e) w = let (v, w') = eval e w in call name v w'
  eval (equals a b) w =
      let (x, w1) = eval a w in let (y, w2) = eval b w1 in (boolean (same x y), w2)

  unfoldable pub exec : Block → W → Value × W
  exec (gives e) w = eval e w
  exec (if_else c a b) w =
      let (v, w') = eval c w in
      let first = exec a w' in let second = exec b w' in if truthy v then first else second

-- A GET in a script gives the value of a key, or false; a DEL says how many keys it deleted.
module _ {W : Type 0} (stored : String → W → Option String) (drop : String → W → W) where
  abbrev bulk : Option String → Value
  bulk none = boolean false
  bulk (some s) = text s

  abbrev count : Option String → Value
  count none = integer 0
  count (some s) = integer 1

  unfoldable pub key_command : String → Value → W → Value × W
  key_command name (text k) w =
      if name == "GET"
      then (bulk (stored k w), w)
      else if name == "DEL"
      then (count (stored k w), drop k w)
      else (nil, w)
  key_command name _ w = (nil, w)

  unfoldable pub release : String → String → W → Value × W
  unfolding exec key_command
  release key token = exec key_command (key ∷ []) (token ∷ []) release_program

  -- The program deletes a key that holds its argument, and leaves the server alone otherwise.
  pub release_lem :
      (key token : String) (w : W)
      → (stored key w ≡ some token → (release key token w).1 ≡ drop key w)
        × (stored key w ≢ some token → (release key token w).1 ≡ w)
  unfolding release exec eval nth truthy same key_command
  release_lem key token w = (
    λ own. rw (own, eq_refl token) refl,
    λ other. elim (Option-cases (stored key w)) [
      | inl nobody ↦ rw nobody refl
      | inr (t, theirs) ↦ elim (Bool-cases (t == token)) [
        | inl alike ↦ absurd (other (theirs ∙ ap some ((eq_iff t token).0 alike)))
        | inr differs ↦ rw (theirs, differs) refl
      ]
    ],
  )
