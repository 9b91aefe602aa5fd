-- ===== src/Cache/Tiered/Overtaken.antt =====
-- A write and a get of a tiered cache (`makeTiered`, packages/core/src/Cache.ts) that the write of another
-- instance overtakes.
use redfx.Common.{ℕ, ◌≢◌, ◌≡◌, refl, false, true, Option, some, eqb, arith, Bool-cases, inl, inr}
use redfx.Cache.Tiered.Instances.{
  idle, Instances, write, hold, announce, handle_message, fetch, fill, writes, holds, announces,
  handles, fetches, fills, Reach, here, later, start, Settled,
}

module _ {A : Type 0} where
  -- `j` writes and announces its value while `i` is between the L2 and its L1, and `i` handles the
  -- message before it changes its L1.
  unfoldable pub overtaken : ℕ → ℕ → A → A → Instances A → Instances A
  overtaken i j a b s =
      let begun = write j (some b) (write i (some a) s) in
      let dropped = handle_message i (announce j (hold j (some b) begun)) in
      handle_message j (announce i (hold i (some a) dropped))

  -- If another instance writes and announces a value between the change of the L2 and that of the L1
  -- in a write, and its message is handled in between, the L1 keeps the overwritten value although
  -- nobody writes any more and both have handled every message.
  pub overtaken_write_stays :
      (i j : ℕ) (a b : A) (v : Option A)
      → i ≢ j
      → let s = overtaken i j a b (start v) in
        Reach false (start v) s × Settled s i × Settled s j × (s.l1 i ≡ some a) × (s.l2 ≡ some b)
  unfolding overtaken write hold announce handle_message
  overtaken_write_stays i j a b v differ =
      let ii : eqb i i ≡ true = ground arith in
      let jj : eqb j j ≡ true = ground arith in
      let ij : eqb i j ≡ false = ground arith in
      let ji : eqb j i ≡ false = ground arith in
      let nobody : (k : ℕ) → (overtaken i j a b (start v)).phase k ≡ idle = λ k.
        elim (Bool-cases (eqb i k)) [
          | inl same ↦ rw same refl
          | inr other ↦ elim (Bool-cases (eqb j k)) [
            | inl same ↦ rw (other, same) refl
            | inr third ↦ rw (other, third) refl
          ]
        ] in
      (
        later
            (later
              (later
                (later
                  (later
                    (later
                      (later (later here (writes i (some a) refl (λ h. cc)))
                        (writes j (some b) (simp (ii, jj, ij, ji)) (λ h. cc)))
                      (holds j (some b) (simp (ii, jj, ij, ji))))
                    (announces j (simp (ii, jj, ij, ji))))
                  (handles i (simp (ii, jj, ij, ji) (λ h. cc))))
                (holds i (some a) (simp (ii, jj, ij, ji))))
              (announces i (simp (ii, jj, ij, ji))))
            (handles j (simp (ii, jj, ij, ji) (λ h. cc))),
        (nobody, simp (ii, jj, ij, ji)),
        (nobody, simp (ii, jj, ij, ji)),
        simp (ii, jj, ij, ji),
        refl,
      )

  -- `i` reads the value of the L2, `j` writes and announces another, and `i` handles the message before
  -- it fills its L1.
  unfoldable pub outlived : ℕ → ℕ → A → A → Instances A → Instances A
  outlived i j a b s =
      let begun = write j (some b) (fetch i a s) in
      fill i a (handle_message i (announce j (hold j (some b) begun)))

  -- If another instance writes and announces a value while a get has read the old one and has not yet
  -- filled its L1, and its message is handled in between, the L1 is filled with the overwritten value
  -- and keeps it, although the write met no other, nobody writes any more and both have handled every
  -- message.
  pub late_fill_stays :
      (i j : ℕ) (a b : A)
      → i ≢ j
      → let s = outlived i j a b (start (some a)) in
        Reach false (start (some a)) s
        × Settled s i
        × Settled s j
        × (s.l1 i ≡ some a)
        × (s.l2 ≡ some b)
  unfolding outlived write hold announce handle_message fetch fill
  late_fill_stays i j a b differ =
      let ii : eqb i i ≡ true = ground arith in
      let jj : eqb j j ≡ true = ground arith in
      let ij : eqb i j ≡ false = ground arith in
      let ji : eqb j i ≡ false = ground arith in
      let nobody : (k : ℕ) → (outlived i j a b (start (some a))).phase k ≡ idle =
        λ k. elim (Bool-cases (eqb j k)) [ inl same ↦ rw same refl | inr other ↦ rw other refl ] in
      (
        later
            (later
              (later
                (later
                  (later (later here (fetches i a refl refl refl))
                    (writes j (some b) refl (λ h. cc)))
                  (holds j (some b) (simp (ii, jj, ij, ji))))
                (announces j (simp (ii, jj, ij, ji))))
              (handles i (simp (ii, jj, ij, ji) (λ h. cc))))
            (fills i a (simp (ii, jj, ij, ji))),
        (nobody, simp (ii, jj, ij, ji)),
        (nobody, simp (ii, jj, ij, ji)),
        simp (ii, jj, ij, ji),
        refl,
      )
