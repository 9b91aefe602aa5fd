-- ===== src/Redis/Memory.antt =====
-- A server that keeps values, among them locks and the release script of the caches, and the service
-- over it: what the tests run against.
use redfx.Common.{
  ℕ, ◌≡◌, inl, inr, refl, String, Bool, true, false, List, [], ◌∷◌, Option, none, some,
  if◌then◌else◌, ◌==◌, eq_refl, Option-cases,
}
use redfx.Js.Number.{of_ℕ}
use redfx.Durations.Whole.{whole}
use redfx.Resp.{RespValue, str, num, null}
use redfx.RedisError.{RedisError, command_error}
use redfx.Effect.{Exit, succeed, fail}
use redfx.Connection.{ConnectionService}
use redfx.RedisCommand.{Arg, text, RedisCommand, command, set_args}
use redfx.Redis.Keys
use redfx.Redis.Service.{RedisService}
use redfx.Redis.Make.{make_redis}
use redfx.Decode.{decode_option_string, decode_number}
use redfx.Redis.ValueServer.{ValueServer}

pub record Store : Type 0 where
  pub values : String → Option String
  pub kept : Bool

abbrev pub put : String → String → Store → Store
put k v w = record w { values = λ x. if x == k then some v else w.values x }

abbrev pub drop : String → Store → Store
drop k w = record w { values = λ x. if x == k then none else w.values x }

abbrev pub bulk : Option String → RespValue
bulk none = null
bulk (some s) = str s

abbrev pub is_own : String → Option String → Bool
is_own token none = false
is_own token (some t) = t == token

abbrev pub take : String → String → Option String → Store → Exit RedisError RespValue × Store
take k token none w = (succeed (str "OK"), put k token w)
take k token (some t) w = (succeed null, w)

abbrev pub release : String → String → Store → Exit RedisError RespValue × Store
release k token w =
    if is_own token (w.values k)
    then (succeed (num (of_ℕ 1)), drop k w)
    else (succeed (num (of_ℕ 0)), w)

abbrev pub no_script : RedisError
no_script = command_error "NOSCRIPT No matching script" none (some "NOSCRIPT")

abbrev pub set_reply : List Arg → Store → Exit RedisError RespValue × Store
set_reply (text k ∷ text v ∷ []) w = (succeed (str "OK"), put k v w)
set_reply (text k ∷ text v ∷ _ ∷ []) w = (succeed (str "OK"), put k v w)
set_reply (text k ∷ text v ∷ _ ∷ _ ∷ []) w = (succeed (str "OK"), put k v w)
set_reply (text k ∷ text v ∷ _ ∷ _ ∷ text nx ∷ []) w = take k v (w.values k) w
set_reply _ w = (succeed null, w)

abbrev pub run_script : List Arg → Store → Exit RedisError RespValue × Store
run_script (sha ∷ n ∷ text k ∷ text token ∷ []) w = release k token w
run_script _ w = (succeed null, w)

abbrev pub key_reply :
    (String → Store → Exit RedisError RespValue × Store)
    → List Arg
    → Store
    → Exit RedisError RespValue × Store
key_reply f (text k ∷ []) w = f k w
key_reply f _ w = (succeed null, w)

abbrev pub stored_send : RedisCommand → Store → Exit RedisError RespValue × Store
stored_send c w =
    if c.name == "GET"
    then key_reply (λ k w. (succeed (bulk (w.values k)), w)) c.args w
    else if c.name == "SET"
    then set_reply c.args w
    else if c.name == "DEL"
    then key_reply (λ k w. (succeed (num (of_ℕ 1)), drop k w)) c.args w
    else if c.name == "SCRIPT"
    then (succeed (str "sha"), record w { kept = true })
    else if c.name == "EVALSHA"
    then (if w.kept then run_script c.args w else (fail no_script, w))
    else (succeed null, w)

abbrev pub stored_connection : ConnectionService Store
stored_connection = record {
  send = stored_send;
  pipeline = λ cs w. (succeed [], w);
  close = λ w. (succeed tt, w);
}

abbrev pub service : RedisService Store whole
service = make_redis whole stored_connection

pub get_reply : (k : String) (w : Store) → service.get k w ≡ (succeed (w.values k), w)
unfolding make_redis Keys.get Keys.ask decode_option_string command
get_reply k w = elim (Option-cases (w.values k)) [
  | inl missing ↦ rw missing refl
  | inr (s, found) ↦ rw found refl
]

pub set_replies :
    (k v : String) (ex px : Option ℕ) (keep_ttl : Bool) (w : Store)
    → service.set k v (record { ex = ex; px = px; keep_ttl = keep_ttl }) w ≡ (succeed tt, put k v w)
unfolding make_redis Keys.set command set_args
set_replies k v (some ex) px keep_ttl w = refl
set_replies k v none (some px) keep_ttl w = refl
set_replies k v none none true w = refl
set_replies k v none none false w = refl

pub del_reply : (k : String) (w : Store) → service.del (k ∷ []) w ≡ (succeed (of_ℕ 1), drop k w)
unfolding make_redis Keys.del Keys.ask decode_number command
del_reply k w = refl

unfoldable pub value_server : ValueServer service
value_server = record {
  stored = λ k w. w.values k;
  put = put;
  drop = drop;
  dropped = λ k w. of_ℕ 1;
  get_lem = get_reply;
  set_lem = λ k v opts w. set_replies k v opts.ex opts.px opts.keep_ttl w;
  del_lem = del_reply;
  stored-put = λ k v w. rw (eq_refl k) refl;
  stored-drop = λ k w. rw (eq_refl k) refl;
}
