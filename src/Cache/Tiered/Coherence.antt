-- ===== src/Cache/Tiered/Coherence.antt =====
-- When the L1s of several instances of a tiered cache (`makeTiered` of packages/core/src/Cache.ts) agree
-- with the L2.
use redfx.Common.{
  ℕ, ◌≢◌, ◌≡◌, ◌⊎◌, inl, inr, refl, sym, ◌∙◌, true, Option, none, some, eqb, Bool-cases, arith,
}
use redfx.Cache.Tiered.Instances.{
  idle, held, written, Instances, write, hold, announce, handle_message, fetch, look_up, fill, Step,
  writes, holds, announces, handles, fetches, looks_up, fills, forgets, Alone, Reach, here, later,
  start, Settled,
}

module _ {A : Type 0} where
  -- Why an L1 may hold what it holds: nothing, the L2's value, a value that a message on its way tells
  -- it to drop, or that another instance is about to announce, or that it is about to replace.
  data Fresh (s : Instances A) (j : ℕ) : Type 0 where
    empty : s.l1 j ≡ none → Fresh s j
    agrees : s.l1 j ≡ s.l2 → Fresh s j
    told : s.inbox j ≢ 0 → Fresh s j
    behind : (i : ℕ) → i ≢ j → s.phase i ≢ idle → Fresh s j
    replaces : (v : Option A) → s.phase j ≡ written v → Fresh s j

  record Coherent (s : Instances A) : Type 0 where
    fresh : (j : ℕ) → Fresh s j
    alone : (i j : ℕ) → s.phase i ≢ idle → s.phase j ≢ idle → i ≡ j
    kept : (i : ℕ) (v : Option A) → s.phase i ≡ written v → (v ≡ none) ⊎ (v ≡ s.l2)
    served : (j : ℕ) (a : A) → s.fetched j ≡ some a → some a ≡ s.l2

  Fresh-carried :
      {s u : Instances A} (j : ℕ)
      → u.l1 j ≡ s.l1 j
      → u.l2 ≡ s.l2
      → u.inbox j ≡ s.inbox j
      → ((k : ℕ) → u.phase k ≡ s.phase k)
      → Fresh s j
      → Fresh u j
  Fresh-carried j same_l1 same_l2 same_inbox phases (empty e) = empty (same_l1 ∙ e)
  Fresh-carried j same_l1 same_l2 same_inbox phases (agrees e) = agrees (same_l1 ∙ e ∙ sym same_l2)
  Fresh-carried j same_l1 same_l2 same_inbox phases (told some_left) =
      told (λ h. some_left (sym same_inbox ∙ h))
  Fresh-carried j same_l1 same_l2 same_inbox phases (behind i differ busy) =
      behind i differ (λ h. busy (sym (phases i) ∙ h))
  Fresh-carried j same_l1 same_l2 same_inbox phases (replaces v at) = replaces v (phases j ∙ at)

  fetch-Coherent :
      (s : Instances A) (i : ℕ) (a : A) → s.l2 ≡ some a → Coherent s → Coherent (fetch i a s)
  unfolding fetch
  fetch-Coherent s i a there c = record {
    fresh = λ j. Fresh-carried j refl refl refl (λ k. refl) (c.fresh j);
    alone = c.alone;
    kept = c.kept;
    served = λ j b at. elim (Bool-cases (eqb i j)) [
      | inl same ↦ sym (rw same at at) ∙ sym there
      | inr differ ↦ c.served j b (rw differ at at)
    ];
  }

  look_up-Coherent :
      (s : Instances A) (i : ℕ) (a : A)
      → Alone s
      → s.l2 ≡ none
      → Coherent s
      → Coherent (look_up i a s)
  unfolding look_up
  look_up-Coherent s i a all nothing c = record {
    fresh = λ j. elim (c.fresh j) [
      | empty e ↦ empty e
      | agrees e ↦ empty (e ∙ nothing)
      | told some_left ↦ told some_left
      | behind k apart busy ↦ behind k apart busy
      | replaces v old ↦ replaces v old
    ];
    alone = c.alone;
    kept = λ k v old. let (ready, quiet) = all k in cc;
    served = λ j b at. elim (Bool-cases (eqb i j)) [
      | inl same ↦ sym (rw same at at)
      | inr differ ↦ let (ready, quiet) = all j in cc (rw differ at at, quiet)
    ];
  }

  fill-Coherent :
      (s : Instances A) (i : ℕ) (a : A) → s.fetched i ≡ some a → Coherent s → Coherent (fill i a s)
  unfolding fill
  fill-Coherent s i a got c = record {
    fresh = λ j. elim (Bool-cases (eqb i j)) [
      | inl same ↦ agrees (rw same (c.served i a got))
      | inr differ ↦ Fresh-carried j (rw differ refl) refl refl (λ k. refl) (c.fresh j)
    ];
    alone = c.alone;
    kept = c.kept;
    served = λ j b at. elim (Bool-cases (eqb i j)) [
      | inl same ↦ cc (rw same at at)
      | inr differ ↦ c.served j b (rw differ at at)
    ];
  }

  write-Coherent :
      (s : Instances A) (i : ℕ) (v : Option A) → Alone s → Coherent s → Coherent (write i v s)
  unfolding write
  write-Coherent s i v all c =
      let own : eqb i i ≡ true = ground arith in
      let only : (j : ℕ) → (write i v s).phase j ≢ idle → i ≡ j = λ j busy.
        elim (Bool-cases (eqb i j)) [
          | inl same ↦ ground arith
          | inr differ ↦ absurd (busy (rw differ ((all j).0)))
        ] in
      record {
        fresh = λ j. elim (Bool-cases (eqb i j)) [
          | inl same ↦ replaces v (rw same refl)
          | inr differ ↦ behind i (λ h. ground arith) (rw own (λ h. cc))
        ];
        alone = λ j k busy_j busy_k. sym (only j busy_j) ∙ only k busy_k;
        kept = λ j v' at. elim (Bool-cases (eqb i j)) [
          | inl same ↦ inr (cc (rw same at at))
          | inr differ ↦ let (ready, quiet) = all j in cc (rw differ at at, ready)
        ];
        served = λ j a got. let (ready, quiet) = all j in cc;
      }

  -- Whoever is in a write behind a step of `i` that leaves the others' phases was in one before.
  hold-Coherent :
      (s : Instances A) (i : ℕ) (v : Option A)
      → s.phase i ≡ written v
      → Coherent s
      → Coherent (hold i v s)
  unfolding hold
  hold-Coherent s i v at c =
      let own : eqb i i ≡ true = ground arith in
      let before : (j : ℕ) → (hold i v s).phase j ≢ idle → s.phase j ≢ idle = λ j busy.
        elim (Bool-cases (eqb i j)) [
          | inl same ↦ let one : i ≡ j = ground arith in rw (← one) (λ h. cc)
          | inr differ ↦ rw differ at busy
        ] in
      record {
        fresh = λ j. elim (Bool-cases (eqb i j)) [
          | inl same ↦ elim (c.kept i v at) [
            | inl nothing ↦ empty (rw same nothing)
            | inr new ↦ agrees (rw same new)
          ]
          | inr differ ↦ behind i (λ h. ground arith) (rw own (λ h. cc))
        ];
        alone = λ j k busy_j busy_k. c.alone j k (before j busy_j) (before k busy_k);
        kept = λ j v' at'. elim (Bool-cases (eqb i j)) [
          | inl same ↦ cc (rw same at at')
          | inr differ ↦ c.kept j v' (rw differ at at')
        ];
        served = c.served;
      }

  announce-Coherent :
      (s : Instances A) (i : ℕ) → s.phase i ≡ held → Coherent s → Coherent (announce i s)
  unfolding announce
  announce-Coherent s i at c =
      let before : (j : ℕ) → (announce i s).phase j ≢ idle → s.phase j ≢ idle = λ j busy.
        elim (Bool-cases (eqb i j)) [
          | inl same ↦ absurd (busy (rw same refl))
          | inr differ ↦ rw differ at busy
        ] in
      record {
        fresh = λ j. elim (Bool-cases (eqb i j)) [
          | inl same ↦
              let one : i ≡ j = ground arith in
              elim (c.fresh j) [
                | empty e ↦ empty e
                | agrees e ↦ agrees e
                | told some_left ↦ told (rw same some_left)
                | behind k apart busy ↦ absurd (apart (c.alone k i busy (λ h. cc) ∙ one))
                | replaces v old ↦ cc (rw (← one) at old, at)
              ]
          | inr differ ↦ told (rw differ (λ h. ground arith))
        ];
        alone = λ j k busy_j busy_k. c.alone j k (before j busy_j) (before k busy_k);
        kept = λ j v old. elim (Bool-cases (eqb i j)) [
          | inl same ↦ cc (rw same at old)
          | inr differ ↦ c.kept j v (rw differ at old)
        ];
        served = c.served;
      }

  Step-Coherent : {s u : Instances A} → Step true s u → Coherent s → Coherent u
  unfolding handle_message
  Step-Coherent {s} (writes i v ready serial) c = write-Coherent s i v (serial refl) c
  Step-Coherent {s} (holds i v at) c = hold-Coherent s i v at c
  Step-Coherent {s} (announces i at) c = announce-Coherent s i at c
  Step-Coherent {s} (handles i some_left) c = record {
    fresh = λ j. elim (Bool-cases (eqb i j)) [
      | inl same ↦ empty (rw same refl)
      | inr differ ↦ Fresh-carried j (rw differ refl) refl (rw differ refl) (λ k. refl) (c.fresh j)
    ];
    alone = c.alone;
    kept = c.kept;
    served = c.served;
  }
  Step-Coherent {s} (fetches i a missing ready there) c = fetch-Coherent s i a there c
  Step-Coherent {s} (looks_up i a ready serial) c =
      let (all, nothing) = serial refl in look_up-Coherent s i a all nothing c
  Step-Coherent {s} (fills i a got) c = fill-Coherent s i a got c
  Step-Coherent {s} (forgets i) c = record {
    fresh = λ j. elim (Bool-cases (eqb i j)) [
      | inl same ↦ empty (rw same refl)
      | inr differ ↦ Fresh-carried j (rw differ refl) refl refl (λ k. refl) (c.fresh j)
    ];
    alone = c.alone;
    kept = c.kept;
    served = c.served;
  }

  Reach-Coherent : {s u : Instances A} → Reach true s u → Coherent s → Coherent u
  Reach-Coherent here c = c
  Reach-Coherent (later r st) c = Step-Coherent st (Reach-Coherent r c)

  start-Coherent : (v : Option A) → Coherent (start v)
  start-Coherent v = record {
    fresh = λ j. empty refl;
    alone = λ i j busy_i busy_j. absurd (busy_i refl);
    kept = λ i v' at. cc;
    served = λ j a got. cc;
  }

  -- If the L2 is changed, by a write or by the store of a get, only while no write of the key is under way
  -- and no get is between having its value and filling its L1, if a get stores only where the L2 holds
  -- nothing, the L2's value does not expire, every command is answered and every message is delivered,
  -- whenever that is, then once the last write has been announced, the L1 of an instance that has
  -- handled its messages holds what the L2 holds, or nothing.
  pub l1s_agree :
      (v : Option A) {s : Instances A} (j : ℕ)
      → Reach true (start v) s
      → Settled s j
      → (s.l1 j ≡ none) ⊎ (s.l1 j ≡ s.l2)
  l1s_agree v j r (all, handled) = elim ((Reach-Coherent r (start-Coherent v)).fresh j) [
    | empty e ↦ inl e
    | agrees e ↦ inr e
    | told some_left ↦ absurd (some_left handled)
    | behind i differ busy ↦ absurd (busy (all i))
    | replaces w at ↦ let rest = all j in cc
  ]
