-- ===== src/Cache/Stampede/Runs.antt =====
-- The runs of one caller of the step relation of Cache.Stampede alone, whose commands are answered.
use redfx.Common.{◌≡◌, String, false, Option, none, some}
use mathlib.Core.Path.{subst}
use redfx.Effect.{Exit, succeed}
use redfx.Cache.Options.{CacheError, OnTimeout}
use redfx.Cache.Stampede.{
  Server, works, Pc, reading, taking, looking, waiting, finished, Answer, move, take, after_get,
}

module _ {E A : Type 0} (on_timeout : OnTimeout) (timeout : CacheError E) (token : String) where
  abbrev pub answered : Exit (CacheError E) A → Answer E A
  answered found = record { reply = works; lookup = found; timed_out = false }

  abbrev pub next : Exit (CacheError E) A → Server A → Pc E A → Server A × Pc E A
  next found m p = move on_timeout timeout token (answered found) m p

  -- Some moves of one caller alone, whose commands are answered and whose lookup has this outcome.
  pub data Runs (found : Exit (CacheError E) A) (m : Server A) (p : Pc E A)
      : Server A → Pc E A → Type 0 where
    rests : Runs found m p m p
    moves :
        {m' : Server A} {p' : Pc E A}
        → Runs found m p m' p'
        → Runs found m p (next found m' p').0 (next found m' p').1

  pub followed :
      {found : Exit (CacheError E) A} {m m' : Server A} {p p' : Pc E A} {m'' : Server A}
      {p'' : Pc E A}
      → Runs found m p m' p'
      → Runs found m' p' m'' p''
      → Runs found m p m'' p''
  followed run rests = run
  followed run (moves later) = moves (followed run later)

  module _ (found : Exit (CacheError E) A) (m : Server A) where
    pub read_value : (a : A) → m.value ≡ some a → Runs found m reading m (finished (succeed a))
    unfolding move after_get
    read_value a there =
        let run : Runs found m reading m (after_get works m.value) = moves rests in
        subst (λ v. Runs found m reading m (after_get works v)) there run

    read_miss : m.value ≡ none → Runs found m reading m taking
    unfolding move after_get
    read_miss missing =
        let run : Runs found m reading m (after_get works m.value) = moves rests in
        subst (λ v. Runs found m reading m (after_get works v)) missing run

    abbrev pub locked : Option String → Server A
    locked lock = record { value = m.value; lock = lock }

    abbrev Takes : Option String → Type 0
    Takes lock = let (lock', p) = take token works lock in Runs found m reading (locked lock') p

    take_lock : m.value ≡ none → Takes m.lock
    unfolding move
    take_lock missing = moves (read_miss missing)

    pub take_free :
        m.value ≡ none → m.lock ≡ none → Runs found m reading (locked (some token)) looking
    unfolding take
    take_free missing free = subst Takes free (take_lock missing)

    pub take_held :
        (t : String)
        → m.value ≡ none
        → m.lock ≡ some t
        → Runs found m reading (locked (some t)) waiting
    unfolding take
    take_held t missing held = subst Takes held (take_lock missing)
