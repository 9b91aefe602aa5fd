-- ===== src/Decode/Laws/Numbers.antt =====
-- What the decoders of numbers agree on.
use redfx.Common.{ℕ, arith, ◌≡◌, refl, true, Option, none, some}
use redfx.Js.Number.{pos, negsuc, Number, decimal, is_nan, equals}
use redfx.Resp.{RespValue, str, num, bigint, bool, null, bytes, arr, obj}
use redfx.Effect.{succeed, map_exit}
use redfx.Decode.Scalar.{decode_number, decode_ttl_seconds}
use redfx.Redis.KeyTtl.{KeyTtl, expires, persistent, missing, to_key_ttl, decode_key_ttl}

-- The duration that a state of a key's TTL has.
abbrev pub remaining : {D : Type 0} → KeyTtl D → Option D
remaining (expires d) = some d
remaining persistent = none
remaining missing = none

-- The answers of TTL: -1 without an expiry, -2 without the key, else the seconds left.
pub data IsTtl : Number → Type 0 where
  no_expiry : IsTtl (decimal (negsuc 0) 0)
  no_key : IsTtl (decimal (negsuc 1) 0)
  left : (n : ℕ) → IsTtl (decimal (pos n) 0)

module _ {D : Type 0} (seconds : Number → D) where
  -- `ttl` and `ttlState` read every answer of TTL alike, whichever form of reply it comes in: `ttl`
  -- returns the duration exactly when `ttlState` says that the key expires, and the same duration.
  pub ttl_readings_agree :
      (v : RespValue) (n : Number)
      → decode_number v ≡ succeed n
      → IsTtl n
      → decode_ttl_seconds seconds v ≡ map_exit remaining (decode_key_ttl seconds v)
  unfolding decode_ttl_seconds decode_key_ttl to_key_ttl equals
  ttl_readings_agree v n decodes no_expiry = rw decodes refl
  ttl_readings_agree v n decodes no_key = rw decodes refl
  ttl_readings_agree v n decodes (left k) = rw decodes refl

-- A number that `decodeNumber` reads is NaN only if the client handed it NaN: no text is read as NaN.
decode_number_reads_no_nan :
    (v : RespValue) (n : Number) → decode_number v ≡ succeed n → is_nan n ≡ true → v ≡ num n
unfolding decode_number
decode_number_reads_no_nan (num n) m decodes is = cc
decode_number_reads_no_nan (bigint z) m decodes is = ground arith
decode_number_reads_no_nan (str s) m decodes is = ground arith
decode_number_reads_no_nan (bool b) m decodes is = cc
decode_number_reads_no_nan null m decodes is = cc
decode_number_reads_no_nan (bytes b) m decodes is = cc
decode_number_reads_no_nan (arr b) m decodes is = cc
decode_number_reads_no_nan (obj b) m decodes is = cc
