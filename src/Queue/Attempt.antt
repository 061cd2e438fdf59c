-- ===== src/Queue/Attempt.antt =====
-- engine/queue.go: `attempt` and `publish`. An outcome of a member is none where the source's error is nil. What a swap
-- put in is kept beside the result, and the namespace made where the attempt made no swap.
use snapshot_engine.Shared.{
  ℕ, zero, suc, Bool, true, false, ◌||◌, inl, inr, Option, none, some, List, [], ◌∷◌, if◌then◌else◌,
  nat_beq, Bytes, bytes_comparable, ◌==◌,
}
use snapshot_engine.Grants.Model.{read}
use snapshot_engine.Queue.Publish.{
  CoreError, swap_conflict, Failure, merge_in_progress, serialization, translate,
  max_commit_attempts, Granted, batch_authorize, Working, Member, Calls, branch_resource,
  apply_member,
}

abbrev pub Outcomes : Type 0
Outcomes = List (Option Failure)

-- failAll
unfoldable pub fail_all : Failure → Outcomes → Outcomes
fail_all e [] = []
fail_all e (none ∷ errs) = some e ∷ fail_all e errs
fail_all e (some e' ∷ errs) = some e' ∷ fail_all e errs

pub record Applied (N : Type 0) : Type 0 where
  pub errs : Outcomes
  pub made : N
  pub granted : Granted
  pub count : ℕ

-- How an attempt's swap went. An attempt that fails before its swap is `refused`.
pub data Swap (N : Type 0) : Type 0 where
  lost refused : Swap N
  unchanged landed : N → Swap N

pub record Attempt (N : Type 0) : Type 0 where
  pub errs : Outcomes
  pub swap : Swap N

-- errors.Is(err, vcs.ErrConflict)
abbrev pub is_conflict : CoreError → Bool
is_conflict swap_conflict = true
is_conflict _ = false

-- What the answer to a swap makes of an attempt.
unfoldable pub after_update : {N : Type 0} → Applied N → Option CoreError → Attempt N
after_update a none = record { errs = a.errs; swap = landed a.made }
after_update a (some e) =
    if is_conflict e
    then record { errs = a.errs; swap = lost }
    else record { errs = fail_all (translate e) a.errs; swap = refused }

module _ {N : Type 0} (calls : Calls N) (branch : Bytes) where
  -- May the member read the branch?
  unfoldable pub read_check : Member N → Option Failure
  read_check m = elim (calls.check m.ident m.principal read (branch_resource branch)) [
    | none ↦ none
    | some e ↦ some (translate e)
  ]

  unfoldable pub read_checks : List (Member N) → Outcomes
  read_checks [] = []
  read_checks (m ∷ batch) = read_check m ∷ read_checks batch

  -- The loop's `lead` and `g`: no principal yet is the empty one.
  unfoldable pub find_lead : List (Member N) → Bytes → Granted → Bytes × Granted
  find_lead [] lead g = (lead, g)
  find_lead (m ∷ batch) lead g = elim (read_check m) [
    | some e ↦ find_lead batch lead g
    | none ↦
        if lead == []
        then find_lead batch m.principal ((read, branch_resource branch) ∷ g)
        else find_lead batch lead g
  ]

  -- The loop that applies the members with no outcome yet, each onto what those before it made.
  unfoldable pub apply_all : List (Member N) → Outcomes → N → Granted → Applied N
  apply_all (m ∷ batch) (none ∷ errs) w g = elim (apply_member calls branch m w g) [
    | inl e ↦ let r = apply_all batch errs w g in record r { errs = some e ∷ r.errs }
    | inr (next, g') ↦
        let r = apply_all batch errs next g' in
        record r { errs = none ∷ r.errs; count = suc r.count }
  ]
  apply_all (m ∷ batch) (some e ∷ errs) w g =
      let r = apply_all batch errs w g in record r { errs = some e ∷ r.errs }
  apply_all _ _ w g = record { errs = []; made = w; granted = g; count = 0 }

  -- The end of an attempt: the swap, made as the lead with what the members were allowed.
  unfoldable pub swap_in : Bytes → Working → Applied N → Attempt N
  swap_in lead cur a =
      let made_root = calls.root a.made in
      if nat_beq a.count 0 || made_root == cur.working
      then record { errs = a.errs; swap = unchanged a.made }
      else after_update a (
          calls.update (batch_authorize a.granted calls.inner) lead cur
            (record cur { working = made_root; staged = made_root }))

  abbrev pub refuse : Failure → Outcomes → Attempt N
  refuse e errs = record { errs = fail_all e errs; swap = refused }

  unfoldable pub attempt : List (Member N) → Attempt N
  attempt batch =
      let errs = read_checks batch in
      let (lead, g) = find_lead batch [] [] in
      if lead == []
      then record { errs = errs; swap = refused }
      else elim (calls.working_set (batch_authorize g calls.inner) lead) [
        | inl e ↦ refuse (translate e) errs
        | inr cur ↦
            if cur.merging
            then refuse merge_in_progress errs
            else elim (calls.namespace cur.working) [
              | inl e ↦ refuse (translate e) errs
              | inr w ↦ swap_in lead cur (apply_all batch errs w g)
            ]
      ]

pub record Published (N : Type 0) : Type 0 where
  pub errs : Outcomes
  pub swap : Swap N

-- The attempts still to make, of which the next is the n-th.
unfoldable pub publish_from :
    {N : Type 0} → ℕ → ℕ → (ℕ → Calls N) → Bytes → List (Member N) → Outcomes → Published N
publish_from zero n calls branch batch errs = record {
  errs = fail_all serialization errs;
  swap = lost;
}
publish_from (suc more) n calls branch batch errs =
    let a = attempt (calls n) branch batch in
    elim a.swap [
      | lost ↦ publish_from more (suc n) calls branch batch a.errs
      | refused ↦ record { errs = a.errs; swap = a.swap }
      | unchanged w ↦ record { errs = a.errs; swap = a.swap }
      | landed w ↦ record { errs = a.errs; swap = a.swap }
    ]

abbrev pub no_errors : {N : Type 0} → List (Member N) → Outcomes
no_errors [] = []
no_errors (m ∷ batch) = none ∷ no_errors batch

unfoldable pub publish : {N : Type 0} → (ℕ → Calls N) → Bytes → List (Member N) → Published N
publish calls branch batch = publish_from max_commit_attempts 0 calls branch batch (no_errors batch)
