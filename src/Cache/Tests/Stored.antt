-- ===== src/Cache/Tests/Stored.antt =====
-- The theorems about the caches over a server that keeps values, locks and scripts.
use redfx.Common.{
  Option-cases, ℕ, ◌≡◌, ◌≢◌, inl, inr, refl, ap, String, true, false, List, [], ◌∷◌, Option, none,
  some, arith, ◌==◌, eq_refl, eq_iff, Bool-cases,
}
use redfx.Js.Number.{of_ℕ}
use redfx.Durations.Whole.{whole}
use redfx.RedisError.{RedisError}
use redfx.Effect.{succeed, fail, die}
use redfx.RedisCommand.{text, command, make, set_args, text_args}
use redfx.Redis.Keys
use redfx.Redis.Make.{make_redis}
use redfx.Ref.{Codec, to_decode_error}
use redfx.Ref.Value
use redfx.Script.{Cached, is_no_script, is_command_error_with}
use redfx.Script.Laws.{ScriptServer}
use redfx.Cache.Options.{
  CacheError, redis_error, CacheOptions, Runtime, ResolvedStampede, resolve_stampede, defaults,
  compute,
}
use redfx.Cache.ReleaseScript.{release_lua, release, exec, eval, nth, truthy, same, key_command}
use redfx.Cache.Core.{l2_get, lookup_and_store, store, try_round, release_lock, ignore}
use redfx.Cache.ReadThrough.{drawn, cached_value_is_read}
use redfx.Cache.Stampede.{Server, Pc, reading}
use redfx.Cache.Stampede.Runs.{Runs}
use redfx.Cache.Stampede.Modelled.{RoundServer, Models}
use redfx.Cache.Stampede.Refinement.{Ends, try_round_refines}
use redfx.Script.Laws.{script_runs_once, ready}
use redfx.Cache.Lock.{LockServer, KnowsSha, release_tail, release_lock_lem, try_round_releases}
use redfx.Redis.Memory.{
  Store, put, drop, run_script, is_own, no_script, service, get_reply, value_server,
}

abbrev texts : Codec String
texts = record { encode = λ s. succeed s; decode = λ s. succeed s }

abbrev runtime : Runtime Store
runtime = record {
  random_uuid = λ w. ("token", w);
  current_time_millis = λ w. 0;
  jitter_sleep = λ n w. w;
  number_result = λ v. succeed (of_ℕ 0);
}

abbrev words : CacheOptions Store ℕ String String
words = record {
  schema = texts;
  prefix = "words";
  ttl = 5000;
  lookup = λ key w. (succeed "found", w);
  stampede = defaults;
}

abbrev empty : Cached Store
empty = record { cached_sha = none; outside = record { values = λ k. none; kept = false } }

texts_are_lawful : (a s : String) → texts.encode a ≡ succeed s → texts.decode s ≡ succeed a
texts_are_lawful a s encodes = cc

cached_value_is_read_example :
    let st' = (lookup_and_store service runtime words "w" empty).1 in
    l2_get service runtime words 1 "w" st'
    ≡ some (
      succeed "found",
      drawn service runtime words value_server texts_are_lawful
          (resolve_stampede whole words.stampede)
          st',
    )
unfolding lookup_and_store store make_redis Value.set to_decode_error Keys.set command set_args
    value_server
cached_value_is_read_example =
    cached_value_is_read service runtime words value_server texts_are_lawful (λ k w. refl) 0 "w"
      "found" empty (lookup_and_store service runtime words "w" empty).1 (inr (inl refl))

run_answers :
    (tail : List String) (w : Store) (e : RedisError)
    → (run_script (text "sha" ∷ text_args tail) w).0 ≡ fail e
    → is_no_script e ≡ false
run_answers [] w e failed = cc
run_answers (n ∷ []) w e failed = cc
run_answers (n ∷ k ∷ []) w e failed = cc
run_answers (n ∷ k ∷ token ∷ []) w e failed = elim (Bool-cases (is_own token (w.values k))) [
  | inl own ↦ cc
  | inr other ↦ cc
]
run_answers (n ∷ k ∷ token ∷ x ∷ rest) w e failed = cc

is_held : (token : String) (value : Option String) → Dec (value ≡ some token)
is_held token none = no (λ h. cc)
is_held token (some t) = elim (Bool-cases (t == token)) [
  | inl same ↦ yes (ap some ((eq_iff t token).0 same))
  | inr other ↦
      no (λ h. let same : t ≡ token = ground arith in let agrees = (eq_iff t token).1 same in cc)
]

not_own : (token : String) (value : Option String) → value ≢ some token → is_own token value ≡ false
not_own token none other = refl
not_own token (some t) other = elim (Bool-cases (t == token)) [
  | inl same ↦ absurd (other (ap some ((eq_iff t token).0 same)))
  | inr differs ↦ differs
]

scripts : ScriptServer service.call release_lua
unfolding make_redis Keys.call make is_no_script is_command_error_with
scripts = record {
  sha = "sha";
  keeps = λ w. w.kept;
  loaded = λ w. record w { kept = true };
  run = λ tail w. run_script (text "sha" ∷ text_args tail) w;
  no_script = no_script;
  is_no_script_lem = refl;
  load_lem = λ w. refl;
  keeps-loaded = λ w. refl;
  eval_kept = λ tail w kept. rw kept refl;
  eval_missing = λ tail w gone. rw gone refl;
  run_answers = run_answers;
}

runs_release :
    (k token : String) (w : Store)
    → (run_script (text "sha" ∷ text_args (release_tail k token)) w).1
      ≡ (release (λ k w. w.values k) drop k token w).1
unfolding release exec eval nth truthy same key_command
runs_release k token w = elim (Option-cases (w.values k)) [
  | inl nobody ↦ rw nobody refl
  | inr (t, theirs) ↦ elim (Bool-cases (t == token)) [
    | inl own ↦ rw (theirs, own) refl
    | inr other ↦ rw (theirs, other) refl
  ]
]

lock_server : LockServer service
unfolding make_redis Keys.call make scripts
lock_server = record {
  scripts = scripts;
  holder = λ k w. w.values k;
  hold = put;
  take_free = λ k token ms w free. rw free refl;
  take_held = λ k token ms t w theirs. rw theirs refl;
  unlock = drop;
  holder-unlock = λ k w. rw (eq_refl k) refl;
  run_lem = λ k token w same_text. runs_release k token w;
  get_lem = λ k key token w free. rw get_reply free;
  refused = λ k token w. w;
  refused_lem = λ k token w free. free;
  holder-loaded = λ k w. refl;
  held = λ k token w. is_held token (w.values k);
}

abbrev holding : Cached Store
holding = record { cached_sha = none; outside = put "words:lock:w" "token" empty.outside }

release_lock_lem_example :
    let s' = (release_lock service runtime words "words:lock:w" "token" holding).1 in
    (lock_server.holder "words:lock:w" holding.outside ≡ some "token"
      → lock_server.holder "words:lock:w" s'.outside ≡ none)
    × (lock_server.holder "words:lock:w" holding.outside ≢ some "token"
        → lock_server.holder "words:lock:w" s'.outside
          ≡ lock_server.holder "words:lock:w" holding.outside)
release_lock_lem_example =
    release_lock_lem service runtime words lock_server "words:lock:w" "token" holding tt

abbrev brief : ResolvedStampede ℕ
brief = record { lock_ttl = 10; wait_timeout = 3; poll_interval = 1; on_timeout = compute }

try_round_releases_example :
    lock_server.holder "words:lock:w"
      (try_round service runtime words "w" brief "token" empty).1.outside
    ≢ some "token"
unfolding lock_server
try_round_releases_example =
    try_round_releases service runtime words lock_server "w" brief "token" empty tt (λ h. cc)

round_server : RoundServer service words "w" "words:lock:w"
unfolding lock_server value_server scripts
round_server = record {
  values = value_server;
  locks = lock_server;
  stored-hold = λ t w. refl;
  holder-hold = λ t w. refl;
  stored-refused = λ t w. refl;
  holder-refused = λ t w. refl;
  holder-put = λ s w. refl;
  stored-unlock = λ w. refl;
  stored-loaded = λ w. refl;
  stored-lookup = λ w. refl;
  holder-lookup = λ w. refl;
}

no_defect :
    (s : Cached Store) (d : String)
    → KnowsSha service runtime words round_server.locks s.cached_sha
    → (release_lock service runtime words "words:lock:w" "token" s).0 ≢ die d
unfolding release_lock ignore scripts lock_server round_server
no_defect s d known =
    let w = ready service.call release_lua runtime.number_result scripts s.cached_sha s.outside in
    rw
      (script_runs_once service.call release_lua runtime.number_result scripts ("words:lock:w" ∷ [])
        ("token" ∷ []) s.cached_sha s.outside known)
      (elim (Bool-cases (is_own "token" (w.values "words:lock:w"))) [
        | inl own ↦ rw own (λ h. cc)
        | inr other ↦ rw other (λ h. cc)
      ])

encodes : (a : String) → (s : String) × (words.schema.encode a ≡ succeed s)
encodes a = (a, refl)

abbrev late : CacheError String
late = redis_error no_script

abbrev unlocked : Server String
unlocked = record { value = none; lock = none }

try_round_refines_example :
    let (result, s') = try_round service runtime words "w" brief "token" empty in
    (m' : Server String) × (p : Pc String String) × Runs compute late "token"
      (succeed "found")
      unlocked
      reading
      m'
      p
    × Ends service runtime words "w" round_server encodes texts_are_lawful compute late "token"
        no_defect result p
    × Models service runtime words "w" round_server encodes texts_are_lawful m' s'.outside
unfolding round_server lock_server value_server
try_round_refines_example =
    try_round_refines service runtime words "w" round_server encodes texts_are_lawful compute late
      "token" no_defect brief unlocked empty tt (refl, refl)
