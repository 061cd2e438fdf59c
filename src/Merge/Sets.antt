-- ===== src/Merge/Sets.antt =====
-- merge/set.go: sets of tagged members. A Go map of the type Members is an association list; its
-- values are true in every set that the package makes.
use snapshot_engine.Shared.{
  ℕ, ◌≡◌, ◌↔◌, refl, Bool, true, false, not, ◌&&◌, ◌||◌, none, some, List, [], ◌∷◌, arith,
  if◌then◌else◌, Comparable, ◌==◌, nat_beq, nat_beq_iff, any, find, put, find-put,
}

pub record Tagged {ℓ} (T : Type ℓ) : Type ℓ where
  pub elem : T
  pub tag : ℕ

module _ {ℓ} {T : Type ℓ} ⦃c : Comparable T⦄ where
  unfoldable pub tagged_eq : Tagged T → Tagged T → Bool
  tagged_eq a b = a.elem == b.elem && nat_beq a.tag b.tag

  pub tagged_eq_iff : (a b : Tagged T) → (tagged_eq a b ≡ true) ↔ (a ≡ b)
  unfolding tagged_eq
  tagged_eq_iff a b = ground (arith, c.eq_iff a.elem b.elem, nat_beq_iff a.tag b.tag)

instance abbrev pub tagged_comparable {ℓ} : {T : Type ℓ} ⦃c : Comparable T⦄ → Comparable (Tagged T)
tagged_comparable = record { eq = tagged_eq; eq_iff = tagged_eq_iff }

abbrev pub Members {ℓ} : Type ℓ → Type ℓ
Members T = List (Tagged T × Bool)

module _ {ℓ} {T : Type ℓ} ⦃c : Comparable T⦄ where
  -- m[t]: a missing key reads as false.
  unfoldable pub at_key : Members T → Tagged T → Bool
  at_key m t = elim (find t m) [ none ↦ false | some b ↦ b ]

  unfoldable pub has_elem : Members T → T → Bool
  has_elem m x = any (λ e. e.0.elem == x) m

  -- The loop over ours, and the loop over theirs.
  unfoldable pub keep_ours : Members T → Members T → Members T → Members T → Members T
  keep_ours base theirs [] out = out
  keep_ours base theirs ((t, _) ∷ ours) out =
      keep_ours base theirs ours
        (if at_key theirs t || not (at_key base t) then put t true out else out)

  unfoldable pub keep_added : Members T → Members T → Members T → Members T
  keep_added base [] out = out
  keep_added base ((t, _) ∷ theirs) out =
      keep_added base theirs (if not (at_key base t) then put t true out else out)

  unfoldable pub merge_sets : Members T → Members T → Members T → Members T
  merge_sets base ours theirs = keep_added base theirs (keep_ours base theirs ours [])

  -- Every value of the map is true.
  abbrev pub AreMembers : Members T → Type 0
  AreMembers [] = Unit
  AreMembers ((t, b) ∷ m) = (b ≡ true) × AreMembers m

  at_key-put : (m : Members T) (t u : Tagged T) → at_key (put t true m) u ≡ (t == u || at_key m u)
  unfolding at_key
  at_key-put m t u = ground (arith, find-put t u true m)

  at_key-nil : (u : Tagged T) → at_key [] u ≡ false
  unfolding at_key find
  at_key-nil u = refl

  at_key-cons :
      (t u : Tagged T) (b : Bool) (m : Members T)
      → b ≡ true
      → at_key ((t, b) ∷ m) u ≡ (t == u || at_key m u)
  unfolding at_key find
  at_key-cons t u b m h = ground arith

  at_key-keep_ours :
      (base theirs ours out : Members T) (u : Tagged T)
      → AreMembers ours
      → at_key (keep_ours base theirs ours out) u
        ≡ (at_key out u || (at_key ours u && (at_key theirs u || not (at_key base u))))
  unfolding keep_ours
  at_key-keep_ours base theirs [] out u h = ground (arith, at_key-nil u)
  at_key-keep_ours base theirs ((t, b) ∷ ours) out u h =
      let out' = if at_key theirs t || not (at_key base t) then put t true out else out in
      ground (
        arith,
        at_key-keep_ours base theirs ours out' u h.1,
        at_key-put out t u,
        at_key-cons t u b ours h.0,
        tagged_eq_iff t u,
      )

  at_key-keep_added :
      (base theirs out : Members T) (u : Tagged T)
      → AreMembers theirs
      → at_key (keep_added base theirs out) u
        ≡ (at_key out u || (at_key theirs u && not (at_key base u)))
  unfolding keep_added
  at_key-keep_added base [] out u h = ground (arith, at_key-nil u)
  at_key-keep_added base ((t, b) ∷ theirs) out u h =
      let out' = if not (at_key base t) then put t true out else out in
      ground (
        arith,
        at_key-keep_added base theirs out' u h.1,
        at_key-put out t u,
        at_key-cons t u b theirs h.0,
        tagged_eq_iff t u,
      )

  -- A tagged member is in the merged set exactly when both sides have it, or one side has it and the base has not:
  -- so one that a side removed and the other kept is gone, and one added under a new tag stays. The
  -- sides are sets: every value they hold is true.
  pub at_key-merge_sets :
      (base ours theirs : Members T) (u : Tagged T)
      → AreMembers ours
      → AreMembers theirs
      → at_key (merge_sets base ours theirs) u ≡ (
          (at_key ours u && at_key theirs u)
          || ((at_key ours u || at_key theirs u) && not (at_key base u)))
  unfolding merge_sets
  at_key-merge_sets base ours theirs u ho ht = ground (
    arith,
    at_key-keep_added base theirs (keep_ours base theirs ours []) u ht,
    at_key-keep_ours base theirs ours [] u ho,
    at_key-nil u,
  )
