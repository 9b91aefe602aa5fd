-- ===== src/Redis/KeyTtl.antt =====
-- The state of a key's time to live (`KeyTtl` and `toKeyTtl` of Redis.ts).
use redfx.Common.{if◌then◌else◌}
use redfx.Js.Number.{Number, negsuc, equals}
use redfx.Resp.{RespValue}
use redfx.Effect.{map_exit}
use redfx.Decode.{Decoded, decode_number}

pub data KeyTtl (D : Type 0) : Type 0 where
  expires : D → KeyTtl D
  persistent missing : KeyTtl D

module _ {D : Type 0} (seconds : Number → D) where
  unfoldable pub to_key_ttl : Number → KeyTtl D
  to_key_ttl n =
      if equals n (negsuc 1)
      then missing
      else if equals n (negsuc 0)
      then persistent
      else expires (seconds n)

  -- `TTL` as `ttlState` reads it.
  unfoldable pub decode_key_ttl : RespValue → Decoded (KeyTtl D)
  decode_key_ttl v = map_exit to_key_ttl (decode_number v)
