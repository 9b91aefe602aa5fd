-- ===== src/RateLimit/Server.antt =====
-- The commands of the Redis server that the rate limiter's script calls, with their documented
-- effect on counters. A key's deadline is the second at which it expires.
use redfx.Common.{ℕ, suc, ◌+◌, ◌<◌, String, ◌≡◌, refl, Option, none, some, ◌==◌, if◌then◌else◌}

-- `tonumber(reply or '0')`
abbrev pub count_of : Option ℕ → ℕ
count_of none = 0
count_of (some n) = n

pub record CounterServer : Type 1 where
  pub State : Type 0
  pub now : State → ℕ
  pub get : String → State → Option ℕ
  pub deadline : String → State → Option ℕ
  pub incr : String → State → ℕ × State
  pub expire : String → ℕ → State → State
  pub incr_value : (k : String) (s : State) → (incr k s).0 ≡ suc (count_of (get k s))
  pub get-incr :
      (k j : String) (s : State)
      → get j (incr k s).1 ≡ (if k == j then some (suc (count_of (get k s))) else get j s)
  pub deadline-incr : (k j : String) (s : State) → deadline j (incr k s).1 ≡ deadline j s
  pub get-expire : (k j : String) (n : ℕ) (s : State) → 0 < n → get j (expire k n s) ≡ get j s
  pub deadline-expire :
      (k j : String) (n m : ℕ) (s : State)
      → get k s ≡ some m
      → deadline j (expire k n s) ≡ (if k == j then some (now s + n) else deadline j s)
  pub now-incr : (k : String) (s : State) → now (incr k s).1 ≡ now s
  pub now-expire : (k : String) (n : ℕ) (s : State) → now (expire k n s) ≡ now s

-- A server that keeps its counters and deadlines in functions.
pub record Memory : Type 0 where
  pub clock : ℕ
  pub counters : String → Option ℕ
  pub deadlines : String → Option ℕ

abbrev put : String → ℕ → (String → Option ℕ) → String → Option ℕ
put k v f j = if k == j then some v else f j

abbrev pub memory : CounterServer
memory = record {
  State = Memory;
  now = λ s. s.clock;
  get = λ k s. s.counters k;
  deadline = λ k s. s.deadlines k;
  incr = λ k s. (
    suc (count_of (s.counters k)),
    record s { counters = put k (suc (count_of (s.counters k))) s.counters },
  );
  expire = λ k n s. record s { deadlines = put k (s.clock + n) s.deadlines };
  incr_value = λ k s. refl;
  get-incr = λ k j s. refl;
  deadline-incr = λ k j s. refl;
  get-expire = λ k j n s h. refl;
  deadline-expire = λ k j n m s h. refl;
  now-incr = λ k s. refl;
  now-expire = λ k n s. refl;
}
