-- ===== src/Adapter/Options.antt =====
-- The options that the adapters hand to their clients: plain objects of the clients' settings.
use redfx.Common.{ℕ, String, Bool, Option}
use redfx.Js.Object.{Obj}
use redfx.RedisError.{RedisError}
use redfx.Effect.{map_error}
use redfx.Run.{Effect, ◌>>=◌}

-- A setting: a flag, a number, or a function from the attempts so far to the delay of the next one,
-- which gives up where it has none.
pub data Setting : Type 0 where
  flag : Bool → Setting
  amount : ℕ → Setting
  strategy : (ℕ → Option ℕ) → Setting
  words : String → Setting
  amounts : Obj ℕ → Setting

-- `ClientConfig` of both adapters.
pub record ClientConfig (D : Type 0) : Type 0 where
  pub url : Option String
  pub options : Obj Setting
  pub command_timeout : Option D

-- `ConnectionError | ConfigError` of a layer whose URL is read from a configuration.
pub data LayerError (C : Type 0) : Type 0 where
  config_error : C → LayerError C
  layer_error : RedisError → LayerError C

-- `Layer.unwrapEffect(Effect.map(url, open))`: the URL is read, and the layer opened with it.
unfoldable pub unwrap_url :
    {W C A : Type 0}
    → Effect W C String
    → (String → Effect W RedisError A)
    → Effect W (LayerError C) A
unwrap_url url open_layer =
    (λ w. let (resolved, w') = url w in (map_error config_error resolved, w')) >>= λ u w.
    let (opened, w') = open_layer u w in (map_error layer_error opened, w')
