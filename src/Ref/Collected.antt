-- ===== src/Ref/Collected.antt =====
-- What `Redis.hashOf` and `Redis.setOf` read after they wrote.
use redfx.Common.{
  String, ◌≡◌, ◌≢◌, refl, sym, ap, ◌∙◌, Bool, true, false, List, [], ◌∷◌, Option, none, some, ◌||◌,
  ◌&&◌, not, any, ◌==◌, eq_iff, eq_refl, arith, Bool-cases, inl, inr, ◌⊎◌,
}
use redfx.Durations.{Durations}
use redfx.RedisError.{RedisError}
use redfx.Effect.{Exit, succeed, fail, die, for_each, for_each-cons}
use redfx.Redis.Service.{RedisService}
use redfx.Ref.Options.{Codec, RefOptions, WriteOptions, to_decode_error, restamp_ttl}
use redfx.Ref.Options.Restamp.{map_effect-state, restamp_ttl-steady}
use redfx.Ref.HashOf as HashOf
use redfx.Ref.SetOf as SetOf
use redfx.Ref.CollectionServer.{CollectionServer}

abbrev pub In : {A : Type 0} → A → List A → Type 0
In x [] = ⊥
In x (v ∷ values) = (v ≡ x) ⊎ In x values

module _ {W A : Type 0} {durations : Durations} (r : RedisService W durations) (codec : Codec A)
    (options : RefOptions durations.DurationInput) (key : String) (server : CollectionServer r)
    (lawful : (a : A) (s : String) → codec.encode a ≡ succeed s → codec.decode s ≡ succeed a) where
  open server use {
    field, is_member, write, insert, withdraw, hset_lem, hget_lem, sadd_lem, srem_lem,
    sismember_lem, field-write, is_member-insert, is_member-withdraw, field-expire,
    is_member-expire,
  }

  decode_value-outcome :
      (found : Option String) (w w' : W)
      → (HashOf.decode_value r codec options key found w).0
        ≡ (HashOf.decode_value r codec options key found w').0
  decode_value-outcome none w w' = refl
  decode_value-outcome (some v) w w' = refl

  -- A field of a typed hash that has been set is what it reads next, with any options of the write,
  -- even if the TTL could not be restamped and the write has failed; other fields of the hash read as
  -- before.
  pub written_field_is_read :
      (f : String) (a : A) (s : String) (opts : WriteOptions durations.DurationInput) (w : W)
      → codec.encode a ≡ succeed s
      → let (outcome, w') = HashOf.set r codec options key f a opts w in
        (HashOf.get r codec options key f w' ≡ (succeed (some a), w'))
        × ((g : String)
            → f ≢ g
            → (HashOf.get r codec options key g w').0 ≡ (HashOf.get r codec options key g w).0)
  unfolding HashOf.set HashOf.get to_decode_error
  written_field_is_read f a s opts w encodes =
      let now = write key f s w in
      let kept = λ (g : String).
        restamp_ttl-steady r (field key g) key (field-expire key g) options.ttl opts now in
      (
        rw
            (
              encodes,
              hset_lem,
              hget_lem,
              kept f,
              field-write key f s f w,
              eq_refl f,
              lawful a s encodes,
            )
            refl,
        λ g differ.
            let other : (f == g) ≡ false = ground (arith, eq_iff f g) in
            rw
              (
                encodes,
                hset_lem,
                hget_lem,
                hget_lem key g w,
                kept g,
                field-write key f s g w,
                other,
              )
              (decode_value-outcome (field key g w) _ w),
      )

  to_decode_error-eq-succeed :
      {X : Type 0} (m : Exit String X) {x : X} → to_decode_error m ≡ succeed x → m ≡ succeed x
  unfolding to_decode_error
  to_decode_error-eq-succeed (succeed a) h = cc
  to_decode_error-eq-succeed (fail e) h = cc
  to_decode_error-eq-succeed (die d) h = cc

  abbrev encode : A → Exit RedisError String
  encode v = to_decode_error (codec.encode v)

  or_right : (b : Bool) {c : Bool} → c ≡ true → (b || c) ≡ true
  or_right true there = refl
  or_right false there = there

  In-encoded :
      (values : List A) (ss : List String) (x : A) (m : String)
      → for_each encode values ≡ succeed ss
      → codec.encode x ≡ succeed m
      → In x values
      → any (λ y. y == m) ss ≡ true
  In-encoded [] ss x m all encodes here = absurd here
  In-encoded (v ∷ values) ss x m all encodes here =
      let (y, ys, first, others, same) = for_each-cons encode v values all in
      let encodes' = to_decode_error-eq-succeed (codec.encode v) first in
      elim here [
        | inl one ↦
            let one_text : y ≡ m = cc in
            rw (← same) (ap (λ b. b || any (λ z. z == m) ys) ((eq_iff y m).1 one_text))
        | inr later ↦
            rw (← same) (or_right (y == m) (In-encoded values ys x m others encodes later))
      ]

  Out-encoded :
      (values : List A) (ss : List String) (x : A) (m : String)
      → for_each encode values ≡ succeed ss
      → codec.encode x ≡ succeed m
      → (In x values → ⊥)
      → any (λ y. y == m) ss ≡ false
  unfolding for_each
  Out-encoded [] ss x m all encodes out = (let empty : [] ≡ ss = cc in rw (← empty) refl)
  Out-encoded (v ∷ values) ss x m all encodes out =
      let (y, ys, first, others, same) = for_each-cons encode v values all in
      let rest = Out-encoded values ys x m others encodes (λ later. out (inr later)) in
      let read_v = lawful v y (to_decode_error-eq-succeed (codec.encode v) first) in
      let read_x = lawful x m encodes in
      elim (Bool-cases (y == m)) [
        | inl one ↦
            let one_text : y ≡ m = (eq_iff y m).0 one in
            let one_value : v ≡ x = cc in absurd (out (inl one_value))
        | inr other ↦ rw (← same) (ap (λ b. b || any (λ z. z == m) ys) other ∙ rest)
      ]

  has_lem :
      (x : A) (m : String) (w : W)
      → codec.encode x ≡ succeed m
      → SetOf.has r codec options key x w ≡ (succeed (is_member key m w), w)
  unfolding SetOf.has to_decode_error
  has_lem x m w encodes = rw (encodes, sismember_lem) refl

  add_with-member :
      (v : A) (values : List A) (ss : List String) (opts : WriteOptions durations.DurationInput)
      (w : W) (m : String)
      → for_each encode (v ∷ values) ≡ succeed ss
      → is_member key m (SetOf.add_with r codec options key (v ∷ values) opts w).1
        ≡ (any (λ y. y == m) ss || is_member key m w)
  unfolding SetOf.add_with SetOf.encode_all
  add_with-member v values ss opts w m all =
      let now = insert key ss w in
      let restamp = restamp_ttl r key options.ttl opts in
      rw (all, sadd_lem)
        (ap (is_member key m) (map_effect-state (λ _. server.inserted key ss w) restamp now)
          ∙ restamp_ttl-steady r (is_member key m) key (is_member-expire key m) options.ttl opts now
          ∙ is_member-insert key m ss w)

  remove-member :
      (v : A) (values : List A) (ss : List String) (w : W) (m : String)
      → for_each encode (v ∷ values) ≡ succeed ss
      → is_member key m (SetOf.remove r codec options key (v ∷ values) w).1
        ≡ (not (any (λ y. y == m) ss) && is_member key m w)
  unfolding SetOf.remove SetOf.encode_all
  remove-member v values ss w m all = rw (all, srem_lem) (is_member-withdraw key m ss w)

  -- A member of a typed set that is among the values just added is in it, one that is among the values
  -- just removed is not, and any other is in it as before, with any options of the write, if all the
  -- values encode: even if the TTL could not be restamped and the adding has failed.
  pub added_is_member :
      (values : List A) (ss : List String) (opts : WriteOptions durations.DurationInput) (w : W)
      (x : A) (m : String)
      → for_each encode values ≡ succeed ss
      → codec.encode x ≡ succeed m
      → let w1 = (SetOf.add_with r codec options key values opts w).1 in
        let w2 = (SetOf.remove r codec options key values w).1 in
        (In x values
          → (SetOf.has r codec options key x w1 ≡ (succeed true, w1))
            × (SetOf.has r codec options key x w2 ≡ (succeed false, w2)))
        × ((In x values → ⊥)
            → ((SetOf.has r codec options key x w1).0 ≡ (SetOf.has r codec options key x w).0)
              × ((SetOf.has r codec options key x w2).0 ≡ (SetOf.has r codec options key x w).0))
  unfolding SetOf.add_with SetOf.remove
  added_is_member [] ss opts w x m all encodes = ((λ here. absurd here), (λ out. (refl, refl)))
  added_is_member (v ∷ values) ss opts w x m all encodes =
      let w1 = (SetOf.add_with r codec options key (v ∷ values) opts w).1 in
      let w2 = (SetOf.remove r codec options key (v ∷ values) w).1 in
      let before = has_lem x m w encodes in
      let added = has_lem x m w1 encodes in
      let removed = has_lem x m w2 encodes in
      let is_added = add_with-member v values ss opts w m all in
      let is_removed = remove-member v values ss w m all in
      (
        λ here.
            let there = In-encoded (v ∷ values) ss x m all encodes here in
            (
              added ∙ ap (λ b. (succeed b, w1)) (is_added ∙ rw there refl),
              removed ∙ ap (λ b. (succeed b, w2)) (is_removed ∙ rw there refl),
            ),
        λ out.
            let gone = Out-encoded (v ∷ values) ss x m all encodes out in
            let kept = sym (ap (λ p. p.0) before) in
            (
              ap (λ p. p.0) added ∙ ap succeed (is_added ∙ rw gone refl) ∙ kept,
              ap (λ p. p.0) removed ∙ ap succeed (is_removed ∙ rw gone refl) ∙ kept,
            ),
      )
