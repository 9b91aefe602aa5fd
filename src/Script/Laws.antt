-- ===== src/Script/Laws.antt =====
-- How often a call runs its script (`Redis.script` of packages/core/src/Redis.ts).
use redfx.Common.{
  String, ◌≡◌, ◌⊎◌, refl, Bool, true, false, ◌&&◌, List, [], ◌∷◌, ◌++◌, Option, none, some, length,
  if◌then◌else◌, inl, inr, Bool-cases,
}
use redfx.Js.Text.{show}
use redfx.Resp.{RespValue, str}
use redfx.RedisError.{RedisError}
use redfx.Effect.{Exit-cases, succeeded, failed, died, Exit, succeed, fail, die}
use redfx.Run.{Effect, handle, continue}
use redfx.RedisCommand.{Arg, text, text_args}
use redfx.Decode.{decode_string}
use redfx.Script.{Cached, is_no_script, load, eval_sha, ensure, reload, script}

-- What the script relies on of the Redis server: SCRIPT LOAD answers the script's SHA and keeps the
-- script, EVALSHA runs a script that the server keeps, and answers NOSCRIPT for any other.
pub record ScriptServer {W : Type 0} (call : String → List Arg → Effect W RedisError RespValue)
    (lua : String) : Type 0 where
  pub sha : String
  pub keeps : W → Bool
  pub loaded : W → W
  pub run : List String → W → Exit RedisError RespValue × W
  pub no_script : RedisError
  pub is_no_script_lem : is_no_script no_script ≡ true
  pub load_lem :
      (w : W) → call "SCRIPT" (text "LOAD" ∷ text lua ∷ []) w ≡ (succeed (str sha), loaded w)
  pub keeps-loaded : (w : W) → keeps (loaded w) ≡ true
  pub eval_kept :
      (tail : List String) (w : W)
      → keeps w ≡ true
      → call "EVALSHA" (text sha ∷ text_args tail) w ≡ run tail w
  pub eval_missing :
      (tail : List String) (w : W)
      → keeps w ≡ false
      → call "EVALSHA" (text sha ∷ text_args tail) w ≡ (fail no_script, w)
  -- a script that runs does not answer NOSCRIPT itself
  pub run_answers :
      (tail : List String) (w : W) (e : RedisError)
      → (run tail w).0 ≡ fail e
      → is_no_script e ≡ false

module _ {W A : Type 0} (call : String → List Arg → Effect W RedisError RespValue) (lua : String)
    (decode_result : RespValue → Exit RedisError A) (server : ScriptServer call lua) where
  open server use {
    sha, keeps, loaded, run, no_script, is_no_script_lem, load_lem, keeps-loaded, eval_kept,
    eval_missing, run_answers,
  }

  -- The closure holds no SHA, or this script's.
  abbrev pub Knows : Option String → Type 0
  Knows none = Unit
  Knows (some s) = s ≡ sha

  is_cached : Option String → Bool
  is_cached none = false
  is_cached (some s) = true

  -- The server's state in which the script runs.
  pub ready : Option String → W → W
  ready cached w = if is_cached cached && keeps w then w else loaded w

  settled :
      (h : RedisError → Effect (Cached W) RedisError RespValue) (r : Exit RedisError RespValue)
      (s : Cached W)
      → ((e : RedisError) → r ≡ fail e → is_no_script e ≡ false)
      → handle is_no_script h r s ≡ (r, s)
  settled h (succeed v) s answers = refl
  settled h (fail e) s answers = rw (answers e refl)
  settled h (die d) s answers = refl

  abbrev pub tail_of : List String → List String → List String
  tail_of keys args = show (length keys) ∷ (keys ++ args)

  abbrev pub done : List String → W → Exit RedisError A × Cached W
  done tail w =
      let (r, w') = run tail w in
      continue r (λ v s. (decode_result v, s)) (record { cached_sha = some sha; outside = w' })

  done-outside : (tail : List String) (w : W) → (done tail w).1.outside ≡ (run tail w).1
  done-outside tail w = elim (Exit-cases (run tail w).0) [
    | succeeded v ran ↦ rw ran refl
    | failed e ran ↦ rw ran refl
    | died d ran ↦ rw ran refl
  ]

  -- Whether or not the closure and the server have the script cached, a call runs it exactly once, on
  -- the same arguments, returns its decoded result or its error, and leaves the SHA cached, if the
  -- closure holds no other SHA than the script's.
  pub script_runs_once :
      (keys args : List String) (cached : Option String) (w : W)
      → Knows cached
      → script call lua decode_result keys args (record { cached_sha = cached; outside = w })
        ≡ done (tail_of keys args) (ready cached w)
  unfolding script ensure load eval_sha reload ready is_cached decode_string
  script_runs_once keys args none w known =
      let tail = tail_of keys args in
      rw (
        load_lem w,
        eval_kept tail (loaded w) (keeps-loaded w),
        settled _ (run tail (loaded w)).0 _ (run_answers tail (loaded w)),
      )
  script_runs_once keys args (some s) w known =
      let tail = tail_of keys args in
      elim (Bool-cases (keeps w)) [
        | inl kept ↦
            rw (known, kept, eval_kept tail w kept, settled _ (run tail w).0 _ (run_answers tail w))
        | inr gone ↦ rw (
          known,
          gone,
          eval_missing tail w gone,
          is_no_script_lem,
          load_lem w,
          eval_kept tail (loaded w) (keeps-loaded w),
        )
      ]

  pub ready-cases :
      (cached : Option String) (w : W) → (ready cached w ≡ w) ⊎ (ready cached w ≡ loaded w)
  unfolding ready
  ready-cases cached w = elim (Bool-cases (is_cached cached && keeps w)) [
    | inl both ↦ rw both (inl refl)
    | inr missing ↦ rw missing (inr refl)
  ]

  pub script-outside :
      (keys args : List String) (cached : Option String) (w : W)
      → Knows cached
      → (script call lua decode_result keys args
          (record { cached_sha = cached; outside = w })).1.outside
        ≡ (run (tail_of keys args) (ready cached w)).1
  script-outside keys args cached w known =
      rw (script_runs_once keys args cached w known)
        (done-outside (tail_of keys args) (ready cached w))

-- If the server has lost the script and the reload fails, the call fails with the reload's error
-- and the closure forgets its SHA, so that the next call begins by loading.
pub script_forgets :
    {W A : Type 0} (call : String → List Arg → Effect W RedisError RespValue) (lua sha : String)
    (decode_result : RespValue → Exit RedisError A) (keys args : List String) (w w1 w2 : W)
    (missing e : RedisError)
    → call "EVALSHA" (text sha ∷ text_args (show (length keys) ∷ (keys ++ args))) w
      ≡ (fail missing, w1)
    → is_no_script missing ≡ true
    → call "SCRIPT" (text "LOAD" ∷ text lua ∷ []) w1 ≡ (fail e, w2)
    → script call lua decode_result keys args (record { cached_sha = some sha; outside = w })
      ≡ (fail e, record { cached_sha = none; outside = w2 })
unfolding script ensure load eval_sha reload
script_forgets call lua sha decode_result keys args w w1 w2 missing e evicted lost refused =
    rw (evicted, lost, refused)
