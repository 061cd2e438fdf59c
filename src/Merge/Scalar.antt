-- ===== src/Merge/Scalar.antt =====
-- merge/merge.go: `Scalar` and `Counter`. An int64 is its bit pattern, a number below 2 ^ 64.
use snapshot_engine.Shared.{
  ℕ, ◌+◌, ◌-◌, ◌%◌, ◌^◌, ◌<◌, ◌≡◌, ◌↔◌, true, false, ◌⊎◌, [], ◌∷◌, arith, if◌then◌else◌, Comparable,
  ◌==◌,
}
use snapshot_engine.Merge.Types.{Conflict, Result, clean}

abbrev pub changed_differently : Conflict
changed_differently = record { path = []; reason = "both sides changed it, to different values" }

module _ {ℓ} {T : Type ℓ} ⦃c : Comparable T⦄ where
  unfoldable pub scalar : T → T → T → Result T
  scalar base ours theirs =
      if ours == theirs
      then record { value = ours; conflicts = []; flagged = [] }
      else if ours == base
      then record { value = theirs; conflicts = []; flagged = [] }
      else if theirs == base
      then record { value = ours; conflicts = []; flagged = [] }
      else record { value = base; conflicts = changed_differently ∷ []; flagged = [] }

  -- A scalar merge does not depend on which side is ours: value, conflicts and flags are the same.
  pub scalar_comm : (base ours theirs : T) → scalar base ours theirs ≡ scalar base theirs ours
  unfolding scalar
  scalar_comm b o t = ground (arith, c.eq_iff o t, c.eq_iff t o, c.eq_iff o b, c.eq_iff t b)

  -- A scalar merge is clean exactly when the sides agree or one of them is the base. An unchanged
  -- side yields the other's value, sides that agree yield theirs, and a conflict yields the base.
  pub scalar_lem :
      (base ours theirs : T)
      → ((clean (scalar base ours theirs) ≡ true)
          ↔ (ours ≡ theirs) ⊎ (ours ≡ base) ⊎ (theirs ≡ base))
        × (ours ≡ base → (scalar base ours theirs).value ≡ theirs)
        × (theirs ≡ base → (scalar base ours theirs).value ≡ ours)
        × (ours ≡ theirs → (scalar base ours theirs).value ≡ ours)
        × (clean (scalar base ours theirs) ≡ false → (scalar base ours theirs).value ≡ base)
  unfolding scalar
  scalar_lem b o t = (
    (
      λ h. ground (arith, c.eq_iff o t, c.eq_iff o b, c.eq_iff t b),
      λ h. ground (arith, c.eq_iff o t, c.eq_iff o b, c.eq_iff t b),
    ),
    λ h. ground (arith, c.eq_iff o t, c.eq_iff o b, c.eq_iff t b),
    λ h. ground (arith, c.eq_iff o t, c.eq_iff o b, c.eq_iff t b),
    λ h. ground (arith, c.eq_iff o t, c.eq_iff o b, c.eq_iff t b),
    λ h. ground (arith, c.eq_iff o t, c.eq_iff o b, c.eq_iff t b),
  )

abbrev pub int64_size : ℕ
int64_size = 2 ^ 64

-- base + (ours - base) + (theirs - base), each sum and difference wrapping round
unfoldable pub counter : ℕ → ℕ → ℕ → ℕ
counter base ours theirs =
    ((base + (ours + int64_size - base) % int64_size) % int64_size
      + (theirs + int64_size - base) % int64_size)
    % int64_size

-- Over 64-bit patterns a counter merge adds up both sides' deltas: a side that did not move yields the
-- other's value, the sides may be exchanged, and of three sides over one base it does not matter
-- which two are merged first.
pub counter_lem :
    (b o t u : ℕ)
    → b < int64_size
    → o < int64_size
    → t < int64_size
    → u < int64_size
    → (counter b o b ≡ o)
      × (counter b b t ≡ t)
      × (counter b o t ≡ counter b t o)
      × (counter b (counter b o t) u ≡ counter b o (counter b t u))
unfolding counter
counter_lem b o t u hb ho ht hu = omega arith
