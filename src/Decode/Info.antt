-- ===== src/Decode/Info.antt =====
-- The decoders of XINFO replies (decode.ts), which keep scalar fields only.
use redfx.Common.{String, Bool, true, false, List, [], ◌∷◌, Option, none, some}
use redfx.Js.Text.{◌<>◌}
use redfx.Js.Number.{number_text, bigint_text}
use redfx.Js.Utf8
use redfx.Js.Object.{Obj, assign}
use redfx.Resp.{RespValue, str, num, bigint, bool, null, bytes, arr, obj, items, properties, typeof}
use redfx.Effect.{succeed, ◌>>=◌, for_each}
use redfx.Decode.Scalar.{Decoded, decode_failure, decode_array}
use redfx.Decode.Flat.{pairs_of}

abbrev boolean_text : Bool → String
boolean_text true = "true"
boolean_text false = "false"

unfoldable pub scalar_text : RespValue → Option String
scalar_text (str s) = some s
scalar_text (bytes bs) = some (Utf8.decode bs)
scalar_text (num n) = some (number_text n)
scalar_text (bigint z) = some (bigint_text z)
scalar_text (bool b) = some (boolean_text b)
scalar_text _ = none

-- `if (field !== undefined && value !== undefined) out[field] = value`
unfoldable pub assign_both : Option String → Option String → Obj String → Obj String
assign_both (some field) (some value) out = assign field value out
assign_both _ _ out = out

unfoldable pub scalar_pairs : List (RespValue × RespValue) → Obj String → Obj String
unfolding scalar_text assign_both
scalar_pairs [] out = out
scalar_pairs ((field, value) ∷ rest) out =
    scalar_pairs rest (assign_both (scalar_text field) (scalar_text value) out)

unfoldable pub scalar_properties : List (String × RespValue) → Obj String → Obj String
unfolding scalar_text assign_both
scalar_properties [] out = out
scalar_properties ((field, raw) ∷ rest) out =
    scalar_properties rest (assign_both (some field) (scalar_text raw) out)

unfoldable pub decode_info_record : RespValue → Decoded (Obj String)
unfolding scalar_pairs scalar_properties pairs_of
decode_info_record null = succeed []
decode_info_record (arr vs) = succeed (scalar_pairs (pairs_of (items vs)) [])
decode_info_record (bytes bs) =
    decode_failure "expected XINFO map or array, got Uint8Array" (bytes bs)
decode_info_record (obj ps) = succeed (scalar_properties (properties ps) [])
decode_info_record v = decode_failure ("expected XINFO map or array, got " <> typeof v) v

unfoldable pub decode_info_record_array : RespValue → Decoded (List (Obj String))
unfolding decode_info_record
decode_info_record_array null = succeed []
decode_info_record_array v = decode_array v >>= for_each decode_info_record
