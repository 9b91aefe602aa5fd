-- ===== src/Effect.antt =====
-- The outcome of an effect of the effect library, and its sequential combinators.
use redfx.Common.{String, ◌≡◌, refl, List, [], ◌∷◌, map, arith, length}

-- `die` is a defect: a value thrown inside an effect, which no error handler sees.
pub data Exit {ℓ κ} (E : Type ℓ) (A : Type κ) : Type (ℓ ⊔ κ) where
  succeed : A → Exit E A
  fail : E → Exit E A
  die : String → Exit E A

-- `Effect.flatMap` of effects that only produce an outcome
infixl 5 ◌>>=◌
abbrev pub ◌>>=◌ {ℓ κ μ} :
    {E : Type ℓ} {A : Type κ} {B : Type μ} → Exit E A → (A → Exit E B) → Exit E B
succeed a >>= f = f a
fail e >>= f = fail e
die d >>= f = die d

-- `Effect.map`
abbrev pub map_exit {ℓ κ μ} : {E : Type ℓ} {A : Type κ} {B : Type μ} → (A → B) → Exit E A → Exit E B
map_exit f (succeed a) = succeed (f a)
map_exit f (fail e) = fail e
map_exit f (die d) = die d

-- `Effect.mapError`
abbrev pub map_error {ℓ κ μ} :
    {E : Type ℓ} {F : Type κ} {A : Type μ} → (E → F) → Exit E A → Exit F A
map_error f (succeed a) = succeed a
map_error f (fail e) = fail (f e)
map_error f (die d) = die d

-- `Effect.all([a, b])`: the first effect runs first, and its failure ends both
abbrev pub all_pair {ℓ κ μ} :
    {E : Type ℓ} {A : Type κ} {B : Type μ} → Exit E A → Exit E B → Exit E (A × B)
all_pair a b = a >>= λ x. map_exit (λ y. (x, y)) b

-- `Effect.forEach(xs, f)`: in order, up to the first failure
unfoldable pub for_each {ℓ κ μ} :
    {E : Type ℓ} {A : Type κ} {B : Type μ} → (A → Exit E B) → List A → Exit E (List B)
for_each f [] = succeed []
for_each f (x ∷ xs) = f x >>= λ y. map_exit (λ ys. y ∷ ys) (for_each f xs)

pub >>=-eq-succeed {ℓ κ μ} :
    {E : Type ℓ} {A : Type κ} {B : Type μ} (m : Exit E A) (f : A → Exit E B) {b : B}
    → (m >>= f) ≡ succeed b
    → (a : A) × (m ≡ succeed a) × (f a ≡ succeed b)
>>=-eq-succeed (succeed a) f h = (a, refl, h)
>>=-eq-succeed (fail e) f h = cc
>>=-eq-succeed (die d) f h = cc

pub map_exit-eq-succeed {ℓ κ μ} :
    {E : Type ℓ} {A : Type κ} {B : Type μ} (f : A → B) (m : Exit E A) {b : B}
    → map_exit f m ≡ succeed b
    → (a : A) × (m ≡ succeed a) × (f a ≡ b)
map_exit-eq-succeed f (succeed a) h = (a, refl, ground arith)
map_exit-eq-succeed f (fail e) h = cc
map_exit-eq-succeed f (die d) h = cc

pub for_each-map {ℓ κ μ ν} :
    {E : Type ℓ} {A : Type κ} {B : Type μ} {C : Type ν} (f : B → Exit E C) (g : A → B) (xs : List A)
    → for_each f (map g xs) ≡ for_each (λ x. f (g x)) xs
unfolding for_each
for_each-map f g [] = refl
for_each-map f g (x ∷ xs) = rw (for_each-map f g xs)

-- Where every effect succeeds, so does the loop, with the results in order.
pub for_each-succeed {ℓ κ μ} :
    {E : Type ℓ} {A : Type κ} {B : Type μ} (f : A → B) (xs : List A)
    → for_each (λ x. let y : Exit E B = succeed (f x) in y) xs ≡ succeed (map f xs)
unfolding for_each
for_each-succeed f [] = refl
for_each-succeed {E} f (x ∷ xs) = rw (for_each-succeed {E = E} f xs)

-- A loop that succeeds has as many results as elements.
pub for_each-length {ℓ κ μ} :
    {E : Type ℓ} {A : Type κ} {B : Type μ} (f : A → Exit E B) (xs : List A) {ys : List B}
    → for_each f xs ≡ succeed ys
    → length ys ≡ length xs
unfolding for_each
for_each-length f [] h = ground arith
for_each-length f (x ∷ xs) h =
    let (y, _, rest) = >>=-eq-succeed (f x) _ h in
    let (ys, same, cons_eq) = map_exit-eq-succeed _ (for_each f xs) rest in
    rw (← cons_eq) (omega (arith, for_each-length f xs same))

pub for_each-cons {ℓ κ μ} :
    {E : Type ℓ} {A : Type κ} {B : Type μ} (f : A → Exit E B) (x : A) (xs : List A) {bs : List B}
    → for_each f (x ∷ xs) ≡ succeed bs
    → (y : B) × (ys : List B) × (f x ≡ succeed y) × (for_each f xs ≡ succeed ys) × (y ∷ ys ≡ bs)
unfolding for_each
for_each-cons f x xs h =
    let (y, first, rest) = >>=-eq-succeed (f x) _ h in
    let (ys, others, same) = map_exit-eq-succeed _ (for_each f xs) rest in
    (y, ys, first, others, same)

-- To split on an outcome and keep the equation.
pub data ExitCase {ℓ κ} {E : Type ℓ} {A : Type κ} (r : Exit E A) : Type (ℓ ⊔ κ) where
  succeeded : (a : A) → r ≡ succeed a → ExitCase r
  failed : (e : E) → r ≡ fail e → ExitCase r
  died : (d : String) → r ≡ die d → ExitCase r

pub Exit-cases {ℓ κ} : {E : Type ℓ} {A : Type κ} (r : Exit E A) → ExitCase r
Exit-cases (succeed a) = succeeded a refl
Exit-cases (fail e) = failed e refl
Exit-cases (die d) = died d refl
