-- ===== src/Resp.antt =====
-- The reply values of packages/core/src/RespValue.ts.
use redfx.Common.{Bool, ℕ, String, ◌≡◌, refl, ap, List, [], ◌∷◌}
use redfx.Js.Number.{ℤ, Number}

mutual
  pub data RespValue : Type 0 where
    str : String → RespValue
    num : Number → RespValue
    bigint : ℤ → RespValue
    bool : Bool → RespValue
    null : RespValue
    bytes : List ℕ → RespValue
    arr : Replies → RespValue
    obj : Properties → RespValue

  pub data Replies : Type 0 where
    nil : Replies
    cons : RespValue → Replies → Replies

  pub data Properties : Type 0 where
    end : Properties
    property : String → RespValue → Properties → Properties

-- The elements of an array, and the own properties of an object in their order.
abbrev pub items : Replies → List RespValue
items nil = []
items (cons v vs) = v ∷ items vs

abbrev pub properties : Properties → List (String × RespValue)
properties end = []
properties (property k v ps) = (k, v) ∷ properties ps

abbrev pub replies : List RespValue → Replies
replies [] = nil
replies (v ∷ vs) = cons v (replies vs)

abbrev pub property_list : List (String × RespValue) → Properties
property_list [] = end
property_list ((k, v) ∷ ps) = property k v (property_list ps)

abbrev pub array : List RespValue → RespValue
array vs = arr (replies vs)

abbrev pub object : List (String × RespValue) → RespValue
object ps = obj (property_list ps)

-- `typeof v`
unfoldable pub typeof : RespValue → String
typeof (str s) = "string"
typeof (num n) = "number"
typeof (bigint z) = "bigint"
typeof (bool b) = "boolean"
typeof _ = "object"

pub items-replies : (vs : List RespValue) → items (replies vs) ≡ vs
items-replies [] = refl
items-replies (v ∷ vs) = ap (λ r. v ∷ r) (items-replies vs)

pub properties-property_list : (ps : List (String × RespValue)) → properties (property_list ps) ≡ ps
properties-property_list [] = refl
properties-property_list ((k, v) ∷ ps) = ap (λ r. (k, v) ∷ r) (properties-property_list ps)
