-- ===== src/Decode/Laws/Protocols.antt =====
-- The RESP2 and RESP3 forms of one reply (packages/core/src/internal/decode.ts).
use redfx.Common.{
  suc, ◌%◌, String, ◌≡◌, refl, sym, ◌≢◌, ap, false, List, [], ◌∷◌, some, arith, length, All,
}
use redfx.Js.Object.{Obj, proto, from_entries, assign_all}
use redfx.Js.Object.Laws.{from_entries-eq-assign_all}
use redfx.Resp.{RespValue, str, array, object, items-replies, properties-property_list}
use redfx.Effect.{
  succeed, fail, die, ◌>>=◌, map_exit, for_each, >>=-eq-succeed, map_exit-eq-succeed,
}
use redfx.Decode.Scalar.{Decoded, decode_string, decode_array}
use redfx.Decode.Flat.{
  pairs_of, decode_property, decode_record, decode_scored, decode_score_pair, is_array,
  decode_scored_members,
}
use redfx.Decode.Stream.{decode_read_pair, decode_read_property, decode_stream_reads}
use redfx.Decode.Info.{
  scalar_text, assign_both, scalar_pairs, scalar_properties, decode_info_record,
}

-- The flat form of a list of pairs.
abbrev pub flat {ℓ} : {A : Type ℓ} → List (A × A) → List A
flat [] = []
flat ((x, y) ∷ ps) = x ∷ y ∷ flat ps

pub pairs_of-flat {ℓ} : {A : Type ℓ} (ps : List (A × A)) → pairs_of (flat ps) ≡ ps
unfolding pairs_of
pairs_of-flat [] = refl
pairs_of-flat ((x, y) ∷ ps) = ap (λ r. (x, y) ∷ r) (pairs_of-flat ps)

pub flat-even {ℓ} : {A : Type ℓ} (ps : List (A × A)) → length (flat ps) % 2 ≡ 0
flat-even [] = omega arith
flat-even ((x, y) ∷ ps) = omega (arith, flat-even ps)

-- A map reply with its field names as texts.
abbrev pub named : List (String × RespValue) → List (RespValue × RespValue)
named [] = []
named ((k, v) ∷ es) = (str k, v) ∷ named es

module _ {ℓ} {A : Type ℓ} (k : A) where
  pairs_of-two :
      (e : Decoded A) (r : Decoded (List A)) (r' : Decoded (List (A × A)))
      → map_exit pairs_of r ≡ r'
      → map_exit pairs_of (map_exit (λ ys. k ∷ ys) (e >>= λ y. map_exit (λ ys. y ∷ ys) r))
        ≡ (map_exit (λ s. (k, s)) e >>= λ y. map_exit (λ ys. y ∷ ys) r')
  unfolding pairs_of
  pairs_of-two (succeed a) (succeed ys) r' h = rw (← h)
  pairs_of-two (succeed a) (fail e) r' h = rw (← h)
  pairs_of-two (succeed a) (die d) r' h = rw (← h)
  pairs_of-two (fail e) r r' h = refl
  pairs_of-two (die d) r r' h = refl

for_each-flat :
    (es : List (String × RespValue))
    → map_exit pairs_of (for_each decode_string (flat (named es))) ≡ for_each decode_property es
unfolding for_each decode_property decode_string pairs_of
for_each-flat [] = refl
for_each-flat ((k, v) ∷ es) = pairs_of-two k (decode_string v) _ _ (for_each-flat es)

map_exit-map_exit {ℓ κ μ} :
    {A : Type ℓ} {B : Type κ} {C : Type μ} (f : B → C) (g : A → B) (m : Decoded A)
    → map_exit f (map_exit g m) ≡ map_exit (λ a. f (g a)) m
map_exit-map_exit f g (succeed a) = refl
map_exit-map_exit f g (fail e) = refl
map_exit-map_exit f g (die d) = refl

-- The decoded properties keep the names of the reply.
names-for_each :
    (es : List (String × RespValue)) (r : List (String × String))
    → for_each decode_property es ≡ succeed r
    → All (λ e. e.0 ≢ proto) es
    → All (λ e. e.0 ≢ proto) r
unfolding for_each decode_property
names-for_each [] [] h hs = tt
names-for_each [] (e ∷ r) h hs = cc
names-for_each ((k, v) ∷ es) r h (p, hs) =
    let (y, first, rest) = >>=-eq-succeed (map_exit (λ t. (k, t)) (decode_string v)) _ h in
    let (t, _, named_y) = map_exit-eq-succeed _ (decode_string v) first in
    let (ys, others, whole) = map_exit-eq-succeed _ (for_each decode_property es) rest in
    rw (← whole, ← named_y) (p, names-for_each es ys others hs)

-- Building the object from own properties and by assignment is the same for such names.
built :
    (m : Decoded (List (String × String)))
    → ((r : List (String × String)) → m ≡ succeed r → All (λ e. e.0 ≢ proto) r)
    → map_exit (λ r. assign_all r []) m ≡ map_exit from_entries m
built (succeed r) h = rw (from_entries-eq-assign_all r (h r refl))
built (fail e) h = refl
built (die d) h = refl

-- A record reply decodes to the same record, or fails with the same error, whether it is a flat
-- RESP2 array of names and values or a RESP3 map, if no field is named `__proto__`.
pub decode_record_protocols :
    (es : List (String × RespValue))
    → All (λ e. e.0 ≢ proto) es
    → decode_record (array (flat (named es))) ≡ decode_record (object es)
unfolding decode_record
decode_record_protocols es h =
    rw
      (
        items-replies,
        properties-property_list,
        flat-even (named es),
        ← map_exit-map_exit (λ r. assign_all r []) pairs_of,
        for_each-flat es,
      )
      (built (for_each decode_property es) (λ r e. names-for_each es r e h))

scalar_pairs-named :
    (es : List (String × RespValue)) (out : Obj String)
    → scalar_pairs (named es) out ≡ scalar_properties es out
unfolding scalar_pairs scalar_properties
scalar_pairs-named [] out = refl
scalar_pairs-named ((k, v) ∷ es) out =
    scalar_pairs-named es (assign_both (some k) (scalar_text v) out)

-- An XINFO reply keeps the same scalar fields as a flat RESP2 array and as a RESP3 map.
decode_info_record_protocols :
    (es : List (String × RespValue))
    → decode_info_record (array (flat (named es))) ≡ decode_info_record (object es)
unfolding decode_info_record
decode_info_record_protocols es =
    rw (items-replies, properties-property_list, pairs_of-flat, scalar_pairs-named es [])

-- One `[key, entries]` pair of an XREAD reply.
abbrev pub read_pairs : List (String × RespValue) → List RespValue
read_pairs [] = []
read_pairs ((k, v) ∷ es) = array (str k ∷ v ∷ []) ∷ read_pairs es

for_each-read_pairs :
    (es : List (String × RespValue))
    → for_each decode_read_pair (read_pairs es) ≡ for_each decode_read_property es
unfolding for_each decode_read_pair decode_read_property decode_string
for_each-read_pairs [] = refl
for_each-read_pairs ((k, v) ∷ es) = rw (for_each-read_pairs es)

-- A reply of XREAD or XREADGROUP decodes to the same reads, or fails with the same error, as a RESP2
-- array of [key, entries] pairs and as a RESP3 map from keys to entries.
decode_stream_reads_protocols :
    (es : List (String × RespValue))
    → decode_stream_reads (array (read_pairs es)) ≡ decode_stream_reads (object es)
unfolding decode_stream_reads
decode_stream_reads_protocols es =
    rw (items-replies, properties-property_list) (for_each-read_pairs es)

-- The RESP3 form of scored members.
abbrev pub score_pairs : List (RespValue × RespValue) → List RespValue
score_pairs [] = []
score_pairs ((m, s) ∷ ps) = array (m ∷ s ∷ []) ∷ score_pairs ps

for_each-score_pairs :
    (ps : List (RespValue × RespValue))
    → for_each decode_score_pair (score_pairs ps) ≡ for_each decode_scored ps
unfolding for_each decode_score_pair
for_each-score_pairs [] = refl
for_each-score_pairs ((m, s) ∷ ps) = rw (for_each-score_pairs ps)

even_two {ℓ} : {A : Type ℓ} (ps : List (A × A)) → suc (suc (length (flat ps))) % 2 ≡ 0
even_two ps = omega (arith, flat-even ps)

abbrev pub HeadIsScalar : List (RespValue × RespValue) → Type 0
HeadIsScalar [] = Unit
HeadIsScalar ((m, s) ∷ ps) = is_array m ≡ false

-- A WITHSCORES reply decodes to the same members and scores in the same order, or fails with the
-- same error, as a flat RESP2 array and as a RESP3 array of pairs, if the first member is no array.
decode_scored_members_protocols :
    (ps : List (RespValue × RespValue))
    → HeadIsScalar ps
    → decode_scored_members (array (flat ps)) ≡ decode_scored_members (array (score_pairs ps))
unfolding decode_scored_members decode_array
decode_scored_members_protocols [] h = refl
decode_scored_members_protocols ((m, s) ∷ ps) h =
    rw (items-replies (flat ps), items-replies (score_pairs ps), h, even_two ps, pairs_of-flat ps)
      (sym (for_each-score_pairs ((m, s) ∷ ps)))
