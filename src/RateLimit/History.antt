-- ===== src/RateLimit/History.antt =====
-- Any number of requests of one key, with time and the server's expiry between them: the counters
-- that the script reads are the history of its admissions.
pub mod Admission
pub mod Theorems
use redfx.Common.{
  ℕ, zero, suc, ◌+◌, ◌-◌, ◌*◌, ◌/◌, ◌%◌, ◌≤◌, ◌<◌, ◌⊎◌, String, ◌≡◌, refl, ◌≢◌, Bool, true, false,
  ◌&&◌, arith, ltb, eqb, ◌==◌, eq_iff, eq_refl, if◌then◌else◌, Bool-cases, inl, inr, ap, sym, ◌∙◌,
  Option, none, some, List, [], ◌∷◌, Option-cases,
}
use redfx.RateLimit.Server.{CounterServer, count_of}
use redfx.RateLimit.{bucket_key, admit, sliding_window}
use redfx.RateLimit.Window.{
  counter, estimate, sliding_step, bucket_key_injective, get-admit, now-admit, deadline-admit,
}

-- How often a bucket stands in a list of buckets.
unfoldable pub occurrences : ℕ → List ℕ → ℕ
occurrences b [] = 0
occurrences b (a ∷ rest) = (if eqb a b then 1 else 0) + occurrences b rest

module _ (server : CounterServer) (key : String) (w max : ℕ) where
  open server use {State, now, get, deadline}

  -- The server, and the buckets in which requests were admitted, the last one first.
  pub record System : Type 0 where
    pub state : State
    pub admitted : List ℕ

  -- The server between two scripts: time goes on, other keys may change, and a counter of this key
  -- stays with its deadline or is gone because the deadline has passed.
  pub record Elapses (s t : State) : Type 0 where
    pub later : now s ≤ now t
    pub kept :
        (b : ℕ)
        → ((get (bucket_key key b) t ≡ get (bucket_key key b) s)
            × (deadline (bucket_key key b) t ≡ deadline (bucket_key key b) s))
          ⊎ ((get (bucket_key key b) t ≡ none)
              × ((d : ℕ) × (deadline (bucket_key key b) s ≡ some d) × (d ≤ now t)))

  -- One `check`: an admission is noted with its bucket.
  unfoldable pub after_request : System → System
  after_request a =
      let (result, s') = sliding_window server key w max a.state in
      record {
        state = s';
        admitted = if eqb result.0 1 then (now a.state / w) ∷ a.admitted else a.admitted;
      }

  pub data Step (a b : System) : Type 0 where
    request : b ≡ after_request a → Step a b
    wait : Elapses a.state b.state → b.admitted ≡ a.admitted → Step a b

  pub data Reach (a : System) : System → Type 0 where
    here : Reach a a
    next : {b c : System} → Reach a b → Step b c → Reach a c

  pub record IsSound (a : System) : Type 0 where
    -- the clock is past the first window
    pub started : w ≤ now a.state
    pub bounded : (b : ℕ) → occurrences b a.admitted ≤ max
    -- a counter counts the admissions of its bucket until the bucket behind it is over
    pub recorded :
        (b : ℕ)
        → now a.state < (b + 2) * w
        → counter server key w max b a.state ≡ occurrences b a.admitted
    -- every counter has a deadline, at the end of the bucket behind it or later
    pub timed :
        (b n : ℕ)
        → get (bucket_key key b) a.state ≡ some n
        → (d : ℕ) × (deadline (bucket_key key b) a.state ≡ some d) × ((b + 2) * w ≤ d)
