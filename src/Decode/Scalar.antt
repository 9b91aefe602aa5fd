-- ===== src/Decode/Scalar.antt =====
-- The decoders of replies that hold one value (decode.ts).
use redfx.Common.{
  String, Bool, true, false, not, ◌&&◌, ◌||◌, List, Option, none, some, ◌==◌, if◌then◌else◌,
}
use redfx.Js.Text.{◌<>◌, to_lower_case, trim}
use redfx.Js.Number.{
  Number, nan, infinity, neg_infinity, of_bigint, is_nan, is_negative, is_zero, number_text,
  bigint_text, to_number,
}
use redfx.Js.Utf8
use redfx.Js.Json
use redfx.Resp.{RespValue, str, num, bigint, bool, null, bytes, arr, items, typeof}
use redfx.RedisError.{DecodeError}
use redfx.Effect.{Exit, succeed, fail, ◌>>=◌, map_exit, for_each}

abbrev pub Decoded {ℓ} : Type ℓ → Type ℓ
Decoded A = Exit DecodeError A

abbrev pub decode_failure {ℓ} : {A : Type ℓ} → String → RespValue → Decoded A
decode_failure message v = fail (record { message = message; value = some v })

unfoldable pub as_text : RespValue → Option String
as_text (str s) = some s
as_text (bytes bs) = some (Utf8.decode bs)
as_text (num n) = some (number_text n)
as_text (bigint z) = some (bigint_text z)
as_text _ = none

abbrev some_text : String → RespValue → Option String → Decoded (Option String)
some_text expected v none = decode_failure (expected <> typeof v) v
some_text expected v (some s) = succeed (some s)

unfoldable pub decode_option_string : RespValue → Decoded (Option String)
unfolding as_text
decode_option_string null = succeed none
decode_option_string v = some_text "expected bulk string or nil, got " v (as_text v)

unfoldable pub decode_string : RespValue → Decoded String
unfolding as_text
decode_string v = elim (as_text v) [
  | none ↦ decode_failure ("expected string, got " <> typeof v) v
  | some s ↦ succeed s
]

abbrev not_integer : RespValue → Decoded Number
not_integer v = decode_failure ("expected integer reply, got " <> typeof v) v

unfoldable pub decode_number : RespValue → Decoded Number
decode_number (num n) = succeed n
decode_number (bigint z) = succeed (of_bigint z)
decode_number (str s) =
    if not (trim s == "") && not (is_nan (to_number s))
    then succeed (to_number s)
    else not_integer (str s)
decode_number v = not_integer v

abbrev not_boolean : RespValue → Decoded Bool
not_boolean v = decode_failure ("expected boolean-ish reply, got " <> typeof v) v

unfoldable pub decode_boolean : RespValue → Decoded Bool
decode_boolean (bool b) = succeed b
decode_boolean (num n) = succeed (not (is_zero n))
decode_boolean (bigint z) = succeed (not (is_zero (of_bigint z)))
decode_boolean (str s) =
    if s == "1" || to_lower_case s == "true"
    then succeed true
    else if s == "0" || to_lower_case s == "false"
    then succeed false
    else not_boolean (str s)
decode_boolean v = not_boolean v

-- `seconds` is `Duration.seconds` of the effect library.
unfoldable pub decode_ttl_seconds {ℓ} :
    {Duration : Type ℓ} → (Number → Duration) → RespValue → Decoded (Option Duration)
decode_ttl_seconds seconds v =
    map_exit (λ n. if is_negative n then none else some (seconds n)) (decode_number v)

unfoldable pub decode_array : RespValue → Decoded (List RespValue)
decode_array (arr vs) = succeed (items vs)
decode_array v = decode_failure ("expected array reply, got " <> typeof v) v

unfoldable pub decode_string_array : RespValue → Decoded (List String)
unfolding decode_array decode_string
decode_string_array v = decode_array v >>= for_each decode_string

float_of : RespValue → String → Decoded Number
float_of v s =
    let lower = to_lower_case (trim s) in
    if lower == "inf" || lower == "+inf"
    then succeed infinity
    else if lower == "-inf"
    then succeed neg_infinity
    else if lower == "nan"
    then succeed nan
    else if is_nan (to_number s)
    then decode_failure ("expected float, got " <> Json.stringify s) v
    else succeed (to_number s)

unfoldable pub decode_float : RespValue → Decoded Number
unfolding as_text float_of
decode_float (num n) = succeed n
decode_float v = elim (as_text v) [
  | none ↦ decode_failure ("expected float reply, got " <> typeof v) v
  | some s ↦ float_of v s
]

unfoldable pub decode_option_float : RespValue → Decoded (Option Number)
unfolding decode_float
decode_option_float null = succeed none
decode_option_float v = map_exit some (decode_float v)

unfoldable pub decode_option_number : RespValue → Decoded (Option Number)
unfolding decode_number
decode_option_number null = succeed none
decode_option_number v = map_exit some (decode_number v)
