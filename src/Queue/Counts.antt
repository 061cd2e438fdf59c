-- ===== src/Queue/Counts.antt =====
-- engine/queue.go: `publish` gives every member of the batch its outcome.
use snapshot_engine.Shared.{
  ℕ, zero, suc, ◌≡◌, refl, ap, ◌∙◌, ◌||◌, inl, inr, Option, none, some, List, [], ◌∷◌, arith,
  length, nat_beq, Bool-cases, Bytes, bytes_comparable, ◌==◌,
}
use snapshot_engine.Queue.Publish.{
  Failure, serialization, max_commit_attempts, Granted, Working, Member, Calls, apply_member,
  translate,
}
use snapshot_engine.Queue.Attempt.{
  Outcomes, Applied, apply_all, Swap, lost, refused, unchanged, landed, swap_in, after_update,
  is_conflict, read_checks, fail_all, attempt, publish_from, publish, no_errors,
}
use snapshot_engine.Queue.Ways.{Sum-cases, first_errs, first_granted, attempt-cases, after_attempt}

length-fail_all : (e : Failure) (errs : Outcomes) → length (fail_all e errs) ≡ length errs
unfolding fail_all
length-fail_all e [] = refl
length-fail_all e (none ∷ errs) = ap suc (length-fail_all e errs)
length-fail_all e (some e' ∷ errs) = ap suc (length-fail_all e errs)

module _ {N : Type 0} where
  length-no_errors : (batch : List (Member N)) → length (no_errors batch) ≡ length batch
  length-no_errors [] = refl
  length-no_errors (m ∷ batch) = ap suc (length-no_errors batch)

module _ {N : Type 0} (calls : Calls N) (branch : Bytes) where
  length-read_checks :
      (batch : List (Member N)) → length (read_checks calls branch batch) ≡ length batch
  unfolding read_checks
  length-read_checks [] = refl
  length-read_checks (m ∷ batch) = ap suc (length-read_checks batch)

  length-apply_all :
      (batch : List (Member N)) (errs : Outcomes) (w : N) (g : Granted)
      → length errs ≡ length batch
      → length (apply_all calls branch batch errs w g).errs ≡ length batch
  unfolding apply_all
  length-apply_all [] errs w g h = refl
  length-apply_all (m ∷ batch) [] w g h = absurd (omega arith)
  length-apply_all (m ∷ batch) (some e ∷ errs) w g h =
      ap suc (length-apply_all batch errs w g (omega arith))
  length-apply_all (m ∷ batch) (none ∷ errs) w g h =
      elim (Sum-cases (apply_member calls branch m w g)) [
        | inl (e, r) ↦ rw (r, apply_all) (ap suc (length-apply_all batch errs w g (omega arith)))
        | inr ((next, g'), r) ↦
            rw (r, apply_all) (ap suc (length-apply_all batch errs next g' (omega arith)))
      ]

  length-after_update :
      (a : Applied N) (answer : Option _) → length (after_update a answer).errs ≡ length a.errs
  unfolding after_update
  length-after_update a none = refl
  length-after_update a (some e) = elim (Bool-cases (is_conflict e)) [
    | inl c ↦ rw c refl
    | inr c ↦ rw c (length-fail_all (translate e) a.errs)
  ]

  length-swap_in :
      (lead : Bytes) (cur : Working) (a : Applied N)
      → length (swap_in calls branch lead cur a).errs ≡ length a.errs
  unfolding swap_in
  length-swap_in lead cur a =
      elim (Bool-cases (nat_beq a.count 0 || calls.root a.made == cur.working)) [
        | inl e ↦ rw e refl
        | inr e ↦ rw e (length-after_update a _)
      ]

  length-attempt :
      (batch : List (Member N)) → length (attempt calls branch batch).errs ≡ length batch
  length-attempt batch =
      attempt-cases calls branch batch (λ a. length a.errs ≡ length batch)
        (λ _. length-read_checks batch)
        (λ e. length-fail_all e (first_errs calls branch batch) ∙ length-read_checks batch)
        (λ cur w _ _ _.
          length-swap_in _ cur _
          ∙ length-apply_all batch (first_errs calls branch batch) w
              (first_granted calls branch batch) (length-read_checks batch))

module _ {N : Type 0} (calls : ℕ → Calls N) (branch : Bytes) (batch : List (Member N)) where
  length-after_attempt :
      (more n : ℕ) (errs : Outcomes) (swap : Swap N)
      → length errs ≡ length batch
      → length (publish_from more (suc n) calls branch batch errs).errs ≡ length batch
      → length (after_attempt calls branch batch more n (record { errs = errs; swap = swap })).errs
        ≡ length batch
  length-after_attempt more n errs lost l r = r
  length-after_attempt more n errs refused l r = l
  length-after_attempt more n errs (unchanged w) l r = l
  length-after_attempt more n errs (landed w) l r = l

  length-publish_from :
      (more n : ℕ) (errs : Outcomes)
      → length errs ≡ length batch
      → length (publish_from more n calls branch batch errs).errs ≡ length batch
  unfolding publish_from
  length-publish_from zero n errs h = length-fail_all serialization errs ∙ h
  length-publish_from (suc more) n errs h =
      let a = attempt (calls n) branch batch in
      let l : length a.errs ≡ length batch = length-attempt (calls n) branch batch in
      length-after_attempt more n a.errs a.swap l (length-publish_from more (suc n) a.errs l)

  -- A publication gives each member of its batch one outcome.
  pub length-publish : length (publish calls branch batch).errs ≡ length batch
  unfolding publish
  length-publish =
      length-publish_from max_commit_attempts 0 (no_errors batch) (length-no_errors batch)
