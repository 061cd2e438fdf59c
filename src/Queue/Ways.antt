-- ===== src/Queue/Ways.antt =====
-- engine/queue.go: the ways that an attempt takes.
use snapshot_engine.Shared.{
  ℕ, suc, ◌≡◌, refl, true, false, ◌⊎◌, inl, inr, List, [], Bool-cases, Bytes, bytes_comparable,
  ◌==◌,
}
use snapshot_engine.Queue.Publish.{
  Failure, merge_in_progress, translate, Granted, batch_authorize, Working, Member, Calls,
}
use snapshot_engine.Queue.Attempt.{
  Outcomes, apply_all, lost, refused, unchanged, landed, Attempt, Published, publish_from, refuse,
  swap_in, read_checks, find_lead, attempt,
}

pub Sum-cases : {A B : Type 0} (x : A ⊎ B) → ((a : A) × (x ≡ inl a)) ⊎ ((b : B) × (x ≡ inr b))
Sum-cases (inl a) = inl (a, refl)
Sum-cases (inr b) = inr (b, refl)

module _ {N : Type 0} (calls : Calls N) (branch : Bytes) (batch : List (Member N)) where
  abbrev pub first_errs : Outcomes
  first_errs = read_checks calls branch batch

  abbrev pub first_lead : Bytes
  first_lead = (find_lead calls branch batch [] []).0

  abbrev pub first_granted : Granted
  first_granted = (find_lead calls branch batch [] []).1

  -- What holds after each of an attempt's ways holds after the attempt.
  pub attempt-cases :
      (Q : Attempt N → Type 0)
      → ((first_lead == []) ≡ true → Q (record { errs = first_errs; swap = refused }))
      → ((e : Failure) → Q (refuse calls branch e first_errs))
      → ((cur : Working) (w : N)
          → calls.working_set (batch_authorize first_granted calls.inner) first_lead ≡ inr cur
          → cur.merging ≡ false
          → calls.namespace cur.working ≡ inr w
          → Q (
              swap_in calls branch first_lead cur
                (apply_all calls branch batch first_errs w first_granted)))
      → Q (attempt calls branch batch)
  unfolding attempt
  attempt-cases Q unled failed swaps = elim (Bool-cases (first_lead == [])) [
    | inl e ↦ rw (e, attempt) (unled e)
    | inr e ↦
        elim (Sum-cases
          (calls.working_set (batch_authorize first_granted calls.inner) first_lead)) [
            | inl (f, c) ↦ rw (e, attempt) (rw c (failed (translate f)))
            | inr (cur, c) ↦ elim (Bool-cases cur.merging) [
              | inl b ↦ rw (e, attempt) (rw c (rw b (failed merge_in_progress)))
              | inr b ↦ elim (Sum-cases (calls.namespace cur.working)) [
                | inl (f, n) ↦ rw (e, attempt) (rw c (rw b (rw n (failed (translate f)))))
                | inr (w, n) ↦ rw (e, attempt) (rw c (rw b (rw n (swaps cur w c b n))))
              ]
            ]
          ]
  ]

module _ {N : Type 0} (calls : ℕ → Calls N) (branch : Bytes) (batch : List (Member N)) where
  -- What the loop of `publish` does after its n-th attempt.
  abbrev pub after_attempt : ℕ → ℕ → Attempt N → Published N
  after_attempt more n a = elim a.swap [
    | lost ↦ publish_from more (suc n) calls branch batch a.errs
    | refused ↦ record { errs = a.errs; swap = a.swap }
    | unchanged w ↦ record { errs = a.errs; swap = a.swap }
    | landed w ↦ record { errs = a.errs; swap = a.swap }
  ]
