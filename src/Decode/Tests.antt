-- ===== src/Decode/Tests.antt =====
-- The theorems about the decoders, and about the expiries and ZADD, at concrete inputs.
use redfx.Common.{◌≡◌, ◌≢◌, refl, String, true, List, [], ◌∷◌, none, All}
use redfx.Js.Number.{negsuc, decimal, of_ℕ}
use redfx.Js.Object.{Obj, proto, lookup, assign_all, define, comes_before}
use redfx.Durations.Whole.{whole}
use redfx.Resp.{RespValue, str, num, bool, array, object}
use redfx.Effect.{succeed, map_exit, for_each}
use redfx.Redis.KeyTtl.{decode_key_ttl}
use redfx.Decode.Scalar.{decode_number, decode_ttl_seconds, decode_string}
use redfx.Decode.Flat.{decode_record, record_from_flat, pairs_of}
use redfx.Decode.Laws.Protocols.{flat, named, decode_record_protocols}
use redfx.Decode.Laws.Records.{texts, decode_record-texts, decode_record_drops_proto}
use redfx.Decode.Laws.Numbers.{remaining, no_expiry, ttl_readings_agree}

abbrev two_fields : List (String × RespValue)
two_fields = ("name", str "ann") ∷ ("age", num (of_ℕ 7)) ∷ []

two_fields_are_plain : All (λ (e : String × RespValue). e.0 ≢ proto) two_fields
two_fields_are_plain = ((λ h. cc), ((λ h. cc), tt))

decode_record_protocols_example :
    decode_record (array (flat (named two_fields))) ≡ decode_record (object two_fields)
decode_record_protocols_example = decode_record_protocols two_fields two_fields_are_plain

abbrev two_streams : List (String × RespValue)
two_streams = ("s", array []) ∷ ("t", bool true) ∷ []

abbrev two_scores : List (RespValue × RespValue)
two_scores = (str "a", str "1.5") ∷ (str "b", str "inf") ∷ []

abbrev mixed : List (String × String)
mixed = (proto, "x") ∷ ("b", "2") ∷ []

decode_record_drops_proto_example : lookup proto (assign_all mixed []) ≡ none
decode_record_drops_proto_example =
    decode_record_drops_proto (texts (flat mixed)) (assign_all mixed []) (decode_record-texts mixed)

ttl_readings_agree_example :
    decode_ttl_seconds whole.seconds (num (decimal (negsuc 0) 0))
    ≡ map_exit remaining (decode_key_ttl whole.seconds (num (decimal (negsuc 0) 0)))
unfolding decode_number
ttl_readings_agree_example =
    ttl_readings_agree whole.seconds (num (decimal (negsuc 0) 0)) (decimal (negsuc 0) 0) refl
      no_expiry

-- A repeated name and two array indices that come in the wrong order.
abbrev shuffled : RespValue
shuffled = array (texts (flat (("b", "1") ∷ ("10", "x") ∷ ("2", "y") ∷ ("b", "3") ∷ [])))

abbrev sorted : Obj String
sorted = ("2", "y") ∷ ("10", "x") ∷ ("b", "3") ∷ []

shuffled_is_sorted : decode_record shuffled ≡ succeed sorted
unfolding decode_record record_from_flat for_each decode_string assign_all define comes_before
    pairs_of
shuffled_is_sorted = refl
