-- ===== src/Decode/Flat.antt =====
-- The decoders of records and of scored members (decode.ts), which RESP2 sends as flat arrays.
use redfx.Common.{◌%◌, String, Bool, true, false, List, [], ◌∷◌, eqb, length, if◌then◌else◌}
use redfx.Js.Text.{◌<>◌, show}
use redfx.Js.Number.{Number}
use redfx.Js.Object.{Obj, from_entries, assign_all}
use redfx.Resp.{RespValue, null, bytes, arr, obj, items, properties, replies, typeof}
use redfx.Effect.{succeed, ◌>>=◌, map_exit, all_pair, for_each}
use redfx.Decode.Scalar.{Decoded, decode_failure, decode_string, decode_float, decode_array}

-- The rounds of `for (let i = 0; i + 1 < xs.length; i += 2)`: the elements i and i + 1.
unfoldable pub pairs_of {ℓ} : {A : Type ℓ} → List A → List (A × A)
pairs_of [] = []
pairs_of (x ∷ []) = []
pairs_of (x ∷ y ∷ rest) = (x, y) ∷ pairs_of rest

unfoldable pub record_from_flat : List RespValue → Decoded (Obj String)
unfolding pairs_of
record_from_flat vs =
    if eqb (length vs % 2) 0
    then map_exit (λ flat. assign_all (pairs_of flat) []) (for_each decode_string vs)
    else decode_failure ("expected even-length map array, got length " <> show (length vs))
        (arr (replies vs))

unfoldable pub decode_property : String × RespValue → Decoded (String × String)
decode_property (field, raw) = map_exit (λ s. (field, s)) (decode_string raw)

unfoldable pub decode_record : RespValue → Decoded (Obj String)
unfolding record_from_flat decode_property
decode_record null = succeed []
decode_record (arr vs) = record_from_flat (items vs)
decode_record (bytes bs) = decode_failure "expected map or array reply, got Uint8Array" (bytes bs)
decode_record (obj ps) = map_exit from_entries (for_each decode_property (properties ps))
decode_record v = decode_failure ("expected map or array reply, got " <> typeof v) v

-- `[decodeString(member), decodeFloat(score)]`, in this order
unfoldable pub decode_scored : RespValue × RespValue → Decoded (String × Number)
decode_scored (member, score) = all_pair (decode_string member) (decode_float score)

abbrev not_score_pair : RespValue → Decoded (String × Number)
not_score_pair pair = decode_failure "expected [member, score] pair" pair

unfoldable pub score_items : RespValue → List RespValue → Decoded (String × Number)
unfolding decode_scored
score_items pair (member ∷ score ∷ []) = decode_scored (member, score)
score_items pair _ = not_score_pair pair

unfoldable pub decode_score_pair : RespValue → Decoded (String × Number)
unfolding score_items
decode_score_pair (arr vs) = score_items (arr vs) (items vs)
decode_score_pair v = not_score_pair v

unfoldable pub is_array : RespValue → Bool
is_array (arr vs) = true
is_array _ = false

unfoldable pub flat_scored : RespValue → List RespValue → Decoded (List (String × Number))
unfolding decode_scored pairs_of
flat_scored v vs =
    if eqb (length vs % 2) 0
    then for_each decode_scored (pairs_of vs)
    else decode_failure ("expected even-length WITHSCORES array, got length " <> show (length vs)) v

unfoldable pub scored_items : RespValue → List RespValue → Decoded (List (String × Number))
unfolding is_array decode_score_pair flat_scored
scored_items v [] = succeed []
scored_items v (first ∷ rest) =
    if is_array first
    then for_each decode_score_pair (first ∷ rest)
    else flat_scored v (first ∷ rest)

unfoldable pub decode_scored_members : RespValue → Decoded (List (String × Number))
unfolding scored_items
decode_scored_members v = decode_array v >>= scored_items v
