-- ===== src/Queue/Settled.antt =====
-- engine/queue.go: how the publication of a batch may end.
use snapshot_engine.Shared.{ℕ, zero, suc, ◌+◌, ◌<◌, ◌≡◌, refl, ◌⊎◌, List, arith, Bytes}
use snapshot_engine.Queue.Publish.{serialization, max_commit_attempts, Member, Calls}
use snapshot_engine.Queue.Attempt.{
  Outcomes, Swap, lost, refused, unchanged, landed, attempt, Published, publish_from, publish,
  no_errors,
}
use snapshot_engine.Queue.Ways.{after_attempt}
use snapshot_engine.Queue.Alone.{AllFailed, AreNamed}
use snapshot_engine.Queue.Landed.{
  IsMade, IsLanded, IsSettled, fail_all-AllFailed, attempt-IsSettled,
}

module _ {N : Type 0} (calls : ℕ → Calls N) (branch : Bytes) (batch : List (Member N)) where
  -- A publication of at most `limit` attempts.
  abbrev pub Ends : ℕ → Published N → Type 0
  Ends limit p = elim p.swap [
    | lost ↦ AllFailed p.errs
    | refused ↦ AllFailed p.errs
    | unchanged w ↦
        (n : ℕ) × (n < limit)
        × (m : IsMade (calls n) branch batch p.errs w) × (AllFailed p.errs
            ⊎ ((calls n).root w ≡ m.cur.working))
    | landed w ↦ (n : ℕ) × (n < limit) × IsLanded (calls n) branch batch p.errs w
  ]

  after_attempt-Ends :
      (more n limit : ℕ) (errs : Outcomes) (swap : Swap N)
      → n < limit
      → IsSettled (calls n) branch batch (record { errs = errs; swap = swap })
      → Ends limit (publish_from more (suc n) calls branch batch errs)
      → Ends limit (after_attempt calls branch batch more n (record { errs = errs; swap = swap }))
  after_attempt-Ends more n limit errs lost h s r = r
  after_attempt-Ends more n limit errs refused h s r = s
  after_attempt-Ends more n limit errs (unchanged w) h s r = (n, h, s.0, s.1)
  after_attempt-Ends more n limit errs (landed w) h s r = (n, h, s)

  publish_from-Ends :
      (more n limit : ℕ) (errs : Outcomes)
      → AreNamed batch
      → n + more ≡ limit
      → Ends limit (publish_from more n calls branch batch errs)
  unfolding publish_from
  publish_from-Ends zero n limit errs named e =
      fail_all-AllFailed (calls n) branch serialization errs
  publish_from-Ends (suc more) n limit errs named e =
      let a = attempt (calls n) branch batch in
      after_attempt-Ends more n limit a.errs a.swap (omega arith)
        (attempt-IsSettled (calls n) branch batch named)
        (publish_from-Ends more (suc n) limit a.errs named (omega arith))

  -- Where every member's principal has a name, a publication ends in one of these ways. Something landed: one of the
  -- first five attempts swapped in, for the working set it read, exactly what the members without an error make of
  -- that working set, applied in order. Or what they make of it is what it holds already, and there
  -- was nothing to swap. Or every member has an error.
  pub publish-Ends : AreNamed batch → Ends max_commit_attempts (publish calls branch batch)
  unfolding publish
  publish-Ends named =
      publish_from-Ends max_commit_attempts 0 max_commit_attempts (no_errors batch) named refl
