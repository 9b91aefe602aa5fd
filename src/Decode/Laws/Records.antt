-- ===== src/Decode/Laws/Records.antt =====
-- Which record replies decode, and to which records.
use redfx.Common.{
  suc, ◌%◌, String, ◌≡◌, refl, ◌≢◌, ◌↔◌, ap, List, [], ◌∷◌, none, arith, eqb, length, All,
  Bool-cases, inl, inr, Option-cases,
}
use redfx.Js.Object.{Obj, proto, lookup, from_entries, assign_all}
use redfx.Js.Object.Laws.{lookup-proto-assign_all}
use redfx.Resp.{RespValue, str, array, object, items-replies}
use redfx.Effect.{succeed, for_each, >>=-eq-succeed, map_exit-eq-succeed}
use redfx.Decode.Scalar.{as_text, decode_string}
use redfx.Decode.Flat.{pairs_of, decode_record}
use redfx.Decode.Laws.Protocols.{flat, pairs_of-flat, flat-even}

abbrev pub texts : List String → List RespValue
texts [] = []
texts (s ∷ ss) = str s ∷ texts ss

length-texts : (ss : List String) → length (texts ss) ≡ length ss
length-texts [] = refl
length-texts (s ∷ ss) = ap suc (length-texts ss)

pub for_each-texts : (ss : List String) → for_each decode_string (texts ss) ≡ succeed ss
unfolding for_each decode_string
for_each-texts [] = refl
for_each-texts (s ∷ ss) = rw (for_each-texts ss)

-- The flat reply of texts decodes to the object in which the names were assigned one after the
-- other, so that the last value of a repeated name stays.
pub decode_record-texts :
    (es : List (String × String))
    → decode_record (array (texts (flat es))) ≡ succeed (assign_all es [])
unfolding decode_record
decode_record-texts es =
    rw (items-replies, length-texts, flat-even es, for_each-texts, pairs_of-flat es)

-- A flat RESP2 reply that decodes has lost its field `__proto__`, if it had one.
pub decode_record_drops_proto :
    (vs : List RespValue) (r : Obj String)
    → decode_record (array vs) ≡ succeed r
    → lookup proto r ≡ none
unfolding decode_record lookup
decode_record_drops_proto vs r h = elim (Bool-cases (eqb (length vs % 2) 0)) [
  | inl even ↦
      let (texts_of, _, same) =
        map_exit-eq-succeed (λ fs. assign_all (pairs_of fs) []) (for_each decode_string vs)
          (rw (items-replies, even) at h) in
      rw (← same) (lookup-proto-assign_all (pairs_of texts_of) [])
  | inr odd ↦ cc (rw (items-replies, odd) at h)
]

-- So the two protocols disagree on a hash whose only field is `__proto__`: the RESP3 map keeps the
-- field, and the RESP2 array loses it.
pub decode_record_differs_by_protocol :
    (s : String)
    → (decode_record (array (str proto ∷ str s ∷ [])) ≡ succeed [])
      × (decode_record (object ((proto, str s) ∷ [])) ≡ succeed ((proto, s) ∷ []))
unfolding decode_record decode_string for_each from_entries assign_all
decode_record_differs_by_protocol s = (refl, refl)

abbrev pub HasText : RespValue → Type 0
HasText v = as_text v ≢ none

decode_string-HasText : (v : RespValue) {s : String} → decode_string v ≡ succeed s → HasText v
unfolding decode_string
decode_string-HasText v h = ground arith

HasText-decode_string : (v : RespValue) → HasText v → (s : String) × (decode_string v ≡ succeed s)
unfolding decode_string
HasText-decode_string v h = elim (Option-cases (as_text v)) [
  | inl e ↦ absurd (h e)
  | inr (s, e) ↦ (s, rw (e, decode_string))
]

for_each-HasText :
    (vs : List RespValue) {ss : List String}
    → for_each decode_string vs ≡ succeed ss
    → All HasText vs
unfolding for_each
for_each-HasText [] h = tt
for_each-HasText (v ∷ vs) h =
    let (s, first, rest) = >>=-eq-succeed (decode_string v) _ h in
    let (ss, others, _) = map_exit-eq-succeed _ (for_each decode_string vs) rest in
    (decode_string-HasText v first, for_each-HasText vs others)

HasText-for_each :
    (vs : List RespValue)
    → All HasText vs
    → (ss : List String) × (for_each decode_string vs ≡ succeed ss)
unfolding for_each
HasText-for_each [] h = ([], refl)
HasText-for_each (v ∷ vs) (p, h) =
    let (s, first) = HasText-decode_string v p in
    let (ss, others) = HasText-for_each vs h in (s ∷ ss, rw (first, others))

-- A flat array decodes to a record exactly when its length is even and each of its elements is a
-- text, bytes, a number or a bigint.
decode_record_succeeds_iff :
    (vs : List RespValue)
    → ((r : Obj String) × (decode_record (array vs) ≡ succeed r))
      ↔ ((length vs % 2 ≡ 0) × All HasText vs)
unfolding decode_record
decode_record_succeeds_iff vs = (
  λ h. elim (Bool-cases (eqb (length vs % 2) 0)) [
    | inl even ↦
        let (ss, each, _) =
          map_exit-eq-succeed (λ fs. assign_all (pairs_of fs) []) (for_each decode_string vs)
            (rw (items-replies, even) at h.1) in
        (ground arith, for_each-HasText vs each)
    | inr odd ↦ cc (rw (items-replies, odd) at h.1)
  ],
  λ h.
      let (ss, each) = HasText-for_each vs h.1 in
      (assign_all (pairs_of ss) [], rw (items-replies, h.0, each)),
)
