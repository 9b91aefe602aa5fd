-- ===== src/Redis/Laws.antt =====
-- What the service sends and does not send.
use redfx.Common.{String, ◌≡◌, refl, List, [], ◌∷◌, ◌++◌}
use redfx.Js.Number.{Number, nan, infinity, neg_infinity, decimal}
use redfx.Effect.{die}
use redfx.RedisError.{RedisError}
use redfx.Connection.{ConnectionService}
use redfx.RedisCommand.{zadd_args, format_score}
use redfx.Redis.Collections.{zadd}

abbrev range_error : String
range_error = "RangeError: redfx: a sorted-set score must not be NaN"

zadd_args-nan :
    (before rest : List (Number × String)) (member : String)
    → zadd_args {E = RedisError} (before ++ (nan, member) ∷ rest) ≡ die range_error
unfolding zadd_args format_score
zadd_args-nan [] rest member = refl
zadd_args-nan ((nan, m) ∷ before) rest member = refl
zadd_args-nan ((infinity, m) ∷ before) rest member = rw (zadd_args-nan before rest member) refl
zadd_args-nan ((neg_infinity, m) ∷ before) rest member = rw (zadd_args-nan before rest member) refl
zadd_args-nan ((decimal a s, m) ∷ before) rest member = rw (zadd_args-nan before rest member) refl

-- A ZADD with a score that is NaN, wherever it stands among the entries, is a defect, and sends
-- nothing, not even the entries before it.
zadd_nan_sends_nothing :
    {W : Type 0} (conn : ConnectionService W) (key : String) (before rest : List (Number × String))
    (member : String) (w : W)
    → zadd conn key (before ++ (nan, member) ∷ rest) w ≡ (die range_error, w)
unfolding zadd
zadd_nan_sends_nothing conn key before rest member w = rw (zadd_args-nan before rest member) refl
