-- ===== src/Cache/Tiered/Instances.antt =====
-- Several instances of a tiered cache (`makeTiered` of packages/core/src/Cache.ts) and one key. A write
-- reaches the L2, then the instance's own L1, and then its message is published; a get that misses the
-- L1 has its value from the L2, or from the lookup, which it stores there, and then fills the L1.
-- Other instances may run between any two of these steps. Every command is answered and every message
-- is delivered, at any later time; the value of the L2 does not expire. The L1 is the effect library's
-- `Cache`: it runs one lookup of the key at a time, and one that ends fills it even if the key was
-- invalidated meanwhile.
use redfx.Common.{ℕ, suc, ◌-◌, ◌≢◌, ◌≡◌, Bool, true, Option, none, some, eqb, if◌then◌else◌}
use redfx.Cache.Stampede.{update}

-- Where an instance stands in a write of the key: not in one; behind the L2's change to a value, or to
-- none by an invalidate; behind the L1's change to it.
pub data Phase (A : Type 0) : Type 0 where
  idle held : Phase A
  written : Option A → Phase A

-- What the L2 and each L1 hold for the key, how many messages of others each instance has not
-- handled, and the value with which a get of the instance is about to fill its L1. All but finitely many instances never move.
pub record Instances (A : Type 0) : Type 0 where
  pub l2 : Option A
  pub l1 : ℕ → Option A
  pub phase : ℕ → Phase A
  pub inbox : ℕ → ℕ
  pub fetched : ℕ → Option A

module _ {A : Type 0} where
  -- `core.store` or `core.del`
  unfoldable pub write : ℕ → Option A → Instances A → Instances A
  write i v s = record s { l2 = v; phase = update s.phase i (written v) }

  -- `l1.set` or `l1.invalidate`
  unfoldable pub hold : ℕ → Option A → Instances A → Instances A
  hold i v s = record s { l1 = update s.l1 i v; phase = update s.phase i held }

  -- `publishInv`: the listener of the instance skips its own message.
  unfoldable pub announce : ℕ → Instances A → Instances A
  announce i s = record s {
    phase = update s.phase i idle;
    inbox = λ j. if eqb i j then s.inbox j else suc (s.inbox j);
  }

  -- A write that nothing interrupts.
  abbrev pub write_through : ℕ → Option A → Instances A → Instances A
  write_through i v s = announce i (hold i v (write i v s))

  -- The listener handles a message.
  unfoldable pub handle_message : ℕ → Instances A → Instances A
  handle_message j s = record s {
    l1 = update s.l1 j none;
    inbox = update s.inbox j (s.inbox j - 1);
  }

  -- A get reads the value of the L2.
  unfoldable pub fetch : ℕ → A → Instances A → Instances A
  fetch j a s = record s { fetched = update s.fetched j (some a) }

  -- A get that read no value has stored what its lookup found.
  unfoldable pub look_up : ℕ → A → Instances A → Instances A
  look_up j a s = record s { l2 = some a; fetched = update s.fetched j (some a) }

  -- The get fills the L1.
  unfoldable pub fill : ℕ → A → Instances A → Instances A
  fill j a s = record s { l1 = update s.l1 j (some a); fetched = update s.fetched j none }

-- No write is under way, and no get is about to fill an L1.
abbrev pub Alone : {A : Type 0} → Instances A → Type 0
Alone s = (j : ℕ) → (s.phase j ≡ idle) × (s.fetched j ≡ none)

-- One step of an instance. With `serial`, the L2 is changed, by a write or by the store of a get, only
-- while no write is under way and no get is about to fill an L1, and a get stores only where the L2
-- holds nothing.
pub data Step {A : Type 0} (serial : Bool) (s : Instances A) : Instances A → Type 0 where
  writes :
      (i : ℕ) (v : Option A)
      → s.phase i ≡ idle
      → (serial ≡ true → Alone s)
      → Step serial s (write i v s)
  holds : (i : ℕ) (v : Option A) → s.phase i ≡ written v → Step serial s (hold i v s)
  announces : (i : ℕ) → s.phase i ≡ held → Step serial s (announce i s)
  handles : (j : ℕ) → s.inbox j ≢ 0 → Step serial s (handle_message j s)
  fetches :
      (j : ℕ) (a : A)
      → s.l1 j ≡ none
      → s.fetched j ≡ none
      → s.l2 ≡ some a
      → Step serial s (fetch j a s)
  looks_up :
      (j : ℕ) (a : A)
      → s.fetched j ≡ none
      → (serial ≡ true → Alone s × (s.l2 ≡ none))
      → Step serial s (look_up j a s)
  fills : (j : ℕ) (a : A) → s.fetched j ≡ some a → Step serial s (fill j a s)
  -- The L1's value expires or is evicted.
  forgets : (j : ℕ) → Step serial s (record s { l1 = update s.l1 j none })

pub data Reach {A : Type 0} (serial : Bool) (s : Instances A) : Instances A → Type 0 where
  here : Reach serial s s
  later : {t u : Instances A} → Reach serial s t → Step serial t u → Reach serial s u

-- Nothing is held by an L1, and nobody writes.
abbrev pub start : {A : Type 0} → Option A → Instances A
start v = record { l2 = v; l1 = λ j. none; phase = λ j. idle; inbox = λ j. 0; fetched = λ j. none }

-- Nobody writes, and the instance has handled every message.
abbrev pub Settled : {A : Type 0} → Instances A → ℕ → Type 0
Settled s j = ((i : ℕ) → s.phase i ≡ idle) × (s.inbox j ≡ 0)
