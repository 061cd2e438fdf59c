-- ===== src/Queue/Alone.antt =====
-- engine/queue.go: a member of a batch that fails leaves no trace in what the others make.
use snapshot_engine.Shared.{
  ◌≡◌, false, inl, inr, none, some, List, [], ◌∷◌, Bytes, bytes_comparable, ◌==◌,
}
use snapshot_engine.Queue.Publish.{Granted, Member, Calls, apply_member}
use snapshot_engine.Queue.Ways.{Sum-cases}
use snapshot_engine.Queue.Attempt.{Outcomes, apply_all}

-- The members that have no error.
abbrev pub survivors : {N : Type 0} → List (Member N) → Outcomes → List (Member N)
survivors (m ∷ batch) (none ∷ errs) = m ∷ survivors batch errs
survivors (m ∷ batch) (some e ∷ errs) = survivors batch errs
survivors _ _ = []

module _ {N : Type 0} (calls : Calls N) (branch : Bytes) where
  -- Members applied one after the other, every one of them without an error.
  pub data Chain : List (Member N) → N → Granted → N → Granted → Type 0 where
    done : (w : N) (g : Granted) → Chain [] w g w g
    applied :
        (m : Member N) (batch : List (Member N)) (w next made : N) (g g' granted : Granted)
        → apply_member calls branch m w g ≡ inr (next, g')
        → Chain batch next g' made granted
        → Chain (m ∷ batch) w g made granted

  -- However many members of a batch fail, what the loop makes is what the members without an error make, applied in the
  -- batch's order and each without an error, and so is what it has been allowed.
  pub apply_all-Chain :
      (batch : List (Member N)) (errs : Outcomes) (w : N) (g : Granted)
      → Chain
          (survivors batch (apply_all calls branch batch errs w g).errs)
          w
          g
          (apply_all calls branch batch errs w g).made
          (apply_all calls branch batch errs w g).granted
  unfolding apply_all
  apply_all-Chain [] errs w g = done w g
  apply_all-Chain (m ∷ batch) [] w g = done w g
  apply_all-Chain (m ∷ batch) (some e ∷ errs) w g = apply_all-Chain batch errs w g
  apply_all-Chain (m ∷ batch) (none ∷ errs) w g =
      elim (Sum-cases (apply_member calls branch m w g)) [
        | inl (e, h) ↦ rw (h, apply_all) (apply_all-Chain batch errs w g)
        | inr ((next, g'), h) ↦
            rw (h, apply_all)
              (applied m (survivors batch (apply_all calls branch batch errs next g').errs) w next
                (apply_all calls branch batch errs next g').made g g'
                (apply_all calls branch batch errs next g').granted h
                (apply_all-Chain batch errs next g'))
      ]

-- Every member has an error.
abbrev pub AllFailed : Outcomes → Type 0
AllFailed [] = Unit
AllFailed (none ∷ errs) = ⊥
AllFailed (some e ∷ errs) = AllFailed errs

-- Every member's principal has a name: a session refuses an empty one.
abbrev pub AreNamed : {N : Type 0} → List (Member N) → Type 0
AreNamed [] = Unit
AreNamed (m ∷ batch) = ((m.principal == []) ≡ false) × AreNamed batch
