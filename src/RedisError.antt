-- ===== src/RedisError.antt =====
-- The errors of packages/core/src/RedisError.ts. The field `cause` holds the foreign error that an
-- error was made of, which nothing reads, and is left out.
use redfx.Common.{String, Option}
use redfx.Resp.{RespValue}

pub record DecodeError : Type 0 where
  pub message : String
  pub value : Option RespValue

pub data RedisError : Type 0 where
  connection_error : String → RedisError
  command_error : String → Option String → Option String → RedisError
  decode_error : DecodeError → RedisError
  timeout_error : String → Option String → Option String → RedisError
