-- ===== src/Queue/Publish.antt =====
-- engine/queue.go: the publication of a batch (`publish`, `attempt`, `mayWrite`, `granted`, `batchAuthorizer`), with
-- `translate` of engine/errors.go and `Txn.onto` of engine/txn.go. What the storage core and the authorizer answer
-- during one attempt is a record of functions, `Calls`; so are `Txn.rebase` and `Txn.merged`. The test
-- seams before a swap, and the deadline that the batch's calls run under, are left out.
use snapshot_engine.Shared.{
  ℕ, suc, Bool, ◌&&◌, ◌⊎◌, inl, inr, Option, none, some, List, [], ◌∷◌, ◌++◌, any, if◌then◌else◌,
  nat_beq, Bytes, bytes_comparable, ◌==◌, codes,
}
use snapshot_engine.Grants.Model.{Action, read, write, manage, admin, commit, merge, other}

-- The core's errors, by the sentinel that `errors.Is` finds in them.
pub data CoreError : Type 0 where
  denied invalid_principal invalid_name : CoreError
  repo_missing vcs_missing branch_missing tag_missing : CoreError
  repo_exists vcs_exists branch_exists tag_exists : CoreError
  merge_state unresolved_conflicts branch_in_use session_lost swap_conflict : CoreError
  unnamed : ℕ → CoreError

-- The engine's errors; `passed_on` is a core's error that `translate` returns as it came.
pub data Failure : Type 0 where
  permission_denied invalid not_found exists_already merge_in_progress in_use lost_session
        serialization :
      Failure
  passed_on : CoreError → Failure

unfoldable pub translate : CoreError → Failure
translate denied = permission_denied
translate invalid_principal = invalid
translate invalid_name = invalid
translate repo_missing = not_found
translate vcs_missing = not_found
translate branch_missing = not_found
translate tag_missing = not_found
translate repo_exists = exists_already
translate vcs_exists = exists_already
translate branch_exists = exists_already
translate tag_exists = exists_already
translate merge_state = merge_in_progress
translate unresolved_conflicts = merge_in_progress
translate branch_in_use = in_use
translate session_lost = lost_session
translate e = passed_on e

abbrev pub max_commit_attempts : ℕ
max_commit_attempts = 5

abbrev pub action_code : Action → ℕ
action_code read = 0
action_code write = 1
action_code manage = 2
action_code admin = 3
action_code commit = 4
action_code merge = 5
action_code (other n) = suc (suc (suc (suc (suc (suc n)))))

-- The questions that a batch's members were each allowed.
abbrev pub Granted : Type 0
Granted = List (Action × Bytes)

abbrev pub is_granted : Granted → Action → Bytes → Bool
is_granted g a resource = any (λ q. nat_beq (action_code q.0) (action_code a) && q.1 == resource) g

-- An authorizer's answer to a principal's question: no error is yes.
abbrev pub Authorizer : Type 0
Authorizer = Bytes → Action → Bytes → Option CoreError

-- batchAuthorizer over the database's authorizer; where that is nil, `inner` denies all.
unfoldable pub batch_authorize : Granted → Authorizer → Authorizer
batch_authorize g inner p a resource = if is_granted g a resource then none else inner p a resource

-- The core's working set of a branch; `rest` is what a commit copies.
pub record Working : Type 0 where
  pub working : Bytes
  pub staged : Bytes
  pub merging : Bool
  pub rest : Bytes

-- A member of a batch: its transaction's principal, the root of its snapshot, and the namespace it made.
pub record Member (N : Type 0) : Type 0 where
  pub ident : ℕ
  pub principal : Bytes
  pub base : Bytes
  pub ours : N

-- What one attempt's calls answer. A member's call runs under its own context, so its answer may differ from
-- another's; within the attempt it answers a question in one way. `diff` has the changed paths as the iterator gives them, an error where it fails.
pub record Calls (N : Type 0) : Type 0 where
  pub root : N → Bytes
  pub check : ℕ → Authorizer
  pub inner : Authorizer
  pub working_set : Authorizer → Bytes → CoreError ⊎ Working
  pub namespace : Bytes → CoreError ⊎ N
  pub rebase : ℕ → N → N → Failure ⊎ Option N
  pub merged : ℕ → N → N → Failure ⊎ N
  pub diff : N → N → CoreError ⊎ List (CoreError ⊎ Bytes)
  pub update : Authorizer → Bytes → Working → Working → Option CoreError

abbrev pub branch_resource : Bytes → Bytes
branch_resource branch = codes "branch:" ++ branch

abbrev pub path_resource : Bytes → Bytes → Bytes
path_resource branch path = codes "path:" ++ (branch ++ (b':' ∷ path))

module _ {N : Type 0} (calls : Calls N) (branch : Bytes) where
  unfoldable pub onto : Member N → N → Failure ⊎ N
  onto m cur =
      if calls.root cur == m.base then inr m.ours else elim (calls.rebase m.ident m.ours cur) [
        | inl e ↦ inl e
        | inr (some next) ↦ inr next
        | inr none ↦ calls.merged m.ident m.ours cur
      ]

  -- The loop of mayWrite: every changed path, in order, each asked as it comes.
  unfoldable pub check_paths : Member N → List (CoreError ⊎ Bytes) → Failure ⊎ List Bytes
  check_paths m [] = inr []
  check_paths m (inl e ∷ items) = inl (translate e)
  check_paths m (inr path ∷ items) =
      elim (calls.check m.ident m.principal write (path_resource branch path)) [
        | some e ↦ inl (translate e)
        | none ↦ elim (check_paths m items) [ inl e ↦ inl e | inr paths ↦ inr (path ∷ paths) ]
      ]

  abbrev pub allow_paths : List Bytes → Granted → Granted
  allow_paths [] g = g
  allow_paths (path ∷ paths) g = allow_paths paths ((write, path_resource branch path) ∷ g)

  unfoldable pub may_write : Member N → N → N → Granted → Failure ⊎ Granted
  may_write m from next g = elim (calls.check m.ident m.principal write (branch_resource branch)) [
    | some e ↦ inl (translate e)
    | none ↦ elim (calls.diff from next) [
      | inl e ↦ inl (translate e)
      | inr items ↦ elim (check_paths m items) [
        | inl e ↦ inl e
        | inr paths ↦ inr (allow_paths paths ((write, branch_resource branch) ∷ g))
      ]
    ]
  ]

  -- One member's turn of the loop that applies the batch.
  unfoldable pub apply_member : Member N → N → Granted → Failure ⊎ N × Granted
  apply_member m w g = elim (onto m w) [
    | inl e ↦ inl e
    | inr next ↦ elim (may_write m w next g) [ inl e ↦ inl e | inr g' ↦ inr (next, g') ]
  ]
