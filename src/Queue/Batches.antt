-- ===== src/Queue/Batches.antt =====
-- engine/queue.go: two members' batches, tests of their publication, and the theorems at them. A namespace is
-- its own root, a list of bytes, and a member adds its bytes to it.
use snapshot_engine.Shared.{
  ℕ, ◌≡◌, refl, false, inl, inr, Option, Option-cases, none, some, List, [], ◌∷◌, ◌++◌, nat_beq,
  if◌then◌else◌, Bytes, bytes_comparable, codes,
}
use snapshot_engine.Grants.Model.{read, write, manage}
use snapshot_engine.Queue.Publish.{
  CoreError, Authorizer, denied, swap_conflict, permission_denied, serialization,
  max_commit_attempts, Working, Member, Calls, translate, onto, check_paths, may_write,
  apply_member,
}
use snapshot_engine.Queue.Attempt.{
  apply_all, landed, lost, read_check, read_checks, find_lead, swap_in, after_update, fail_all,
  attempt, publish_from, publish,
}
use snapshot_engine.Queue.Alone.{survivors, Chain, apply_all-Chain}
use snapshot_engine.Queue.Asked.{over}
use snapshot_engine.Queue.Authority.{SomeAllowed, IsVouched, attempt-over}
use snapshot_engine.Queue.Settled.{Ends, publish-Ends}
use snapshot_engine.Queue.Writes.{IsAllowed, apply_member-IsAllowed}

abbrev main : Bytes
main = codes "main"

abbrev ann : Member Bytes
ann = record { ident = 1; principal = codes "ann"; base = codes "0"; ours = codes "a" }

abbrev bob : Member Bytes
bob = record { ident = 2; principal = codes "bob"; base = codes "0"; ours = codes "b" }

abbrev cat : Member Bytes
cat = record { ident = 3; principal = codes "cat"; base = codes "0"; ours = codes "c" }

abbrev three_members : List (Member Bytes)
three_members = ann ∷ bob ∷ cat ∷ []

abbrev current : Working
current = record { working = codes "0"; staged = codes "0"; merging = false; rest = [] }

-- Bob may read and not write.
abbrev quiet_calls : Calls Bytes
quiet_calls = record {
  root = λ n. n;
  check = λ i p a r. elim a [ write ↦ if nat_beq i 2 then some denied else none | _ ↦ none ];
  inner = λ p a r. some denied;
  working_set = λ who lead. inr current;
  namespace = λ r. inr r;
  rebase = λ i ours cur. inr (some (cur ++ ours));
  merged = λ i ours cur. inr cur;
  diff = λ from next. inr (inr (codes "t") ∷ []);
  update = λ who lead cur next. none;
}

-- Another process swaps first.
abbrev busy_calls : Calls Bytes
busy_calls = record quiet_calls { update = λ who lead cur next. some swap_conflict }

-- The first attempt loses.
abbrev second_wins : ℕ → Calls Bytes
second_wins n = if nat_beq n 0 then busy_calls else quiet_calls

published_second :
    publish second_wins main three_members
    ≡ record { errs = none ∷ some permission_denied ∷ none ∷ []; swap = landed (codes "ac") }
unfolding publish publish_from attempt read_checks read_check find_lead apply_all apply_member onto
    may_write check_paths swap_in after_update translate
published_second = refl

never_published :
    publish (λ n. busy_calls) main (ann ∷ bob ∷ [])
    ≡ record { errs = some serialization ∷ some permission_denied ∷ []; swap = lost }
unfolding publish publish_from attempt read_checks read_check find_lead apply_all apply_member onto
    may_write check_paths swap_in after_update translate fail_all
never_published = refl

publish-Ends_example :
    Ends second_wins main three_members max_commit_attempts (publish second_wins main three_members)
publish-Ends_example = publish-Ends second_wins main three_members (refl, (refl, (refl, tt)))

-- No member may manage the branch, and neither may anyone else.
abbrev unmanaged_calls : Calls Bytes
unmanaged_calls = record quiet_calls {
  check = λ i p a r. elim a [ read ↦ none | write ↦ none | _ ↦ some denied ];
}

-- Its swap lands only under an authorizer that says no to Manage on the branch.
abbrev swap_unmanaged : Authorizer → Bytes → Working → Working → Option CoreError
swap_unmanaged who lead cur next = elim (who (codes "ann") manage (codes "branch:main")) [
  | none ↦ some denied
  | some e ↦ none
]

unmanaged : SomeAllowed unmanaged_calls main three_members manage (codes "branch:main") → ⊥
unmanaged (inl c) = cc
unmanaged (inr (inl c)) = cc
unmanaged (inr (inr (inl c))) = cc
unmanaged (inr (inr (inr n))) = n

none_manages :
    (who : Authorizer)
    → IsVouched unmanaged_calls main three_members who
    → (lead : Bytes) (cur next : Working) → swap_unmanaged who lead cur next ≡ none
none_manages who v lead cur next =
    elim (Option-cases (who (codes "ann") manage (codes "branch:main"))) [
      | inl e ↦ absurd (elim (v (codes "ann") manage (codes "branch:main") e) [
        | inl s ↦ unmanaged s
        | inr d ↦ cc
      ])
      | inr (f, e) ↦ rw (e, swap_unmanaged) refl
    ]

attempt-over_example :
    attempt (over unmanaged_calls unmanaged_calls.working_set swap_unmanaged) main three_members
    ≡ attempt unmanaged_calls main three_members
attempt-over_example =
    attempt-over unmanaged_calls main unmanaged_calls.working_set swap_unmanaged three_members
      (λ who v lead. refl) none_manages

apply_all-Chain_example :
    Chain quiet_calls main
      (survivors three_members
        (apply_all quiet_calls main three_members (none ∷ none ∷ none ∷ []) (codes "0") []).errs)
      (codes "0")
      []
      (apply_all quiet_calls main three_members (none ∷ none ∷ none ∷ []) (codes "0") []).made
      (apply_all quiet_calls main three_members (none ∷ none ∷ none ∷ []) (codes "0") []).granted
apply_all-Chain_example =
    apply_all-Chain quiet_calls main three_members (none ∷ none ∷ none ∷ []) (codes "0") []

apply_member-IsAllowed_example : IsAllowed quiet_calls main ann (codes "0") (codes "a")
unfolding apply_member onto may_write check_paths
apply_member-IsAllowed_example =
    apply_member-IsAllowed quiet_calls main ann (codes "0") (codes "a") []
      ((write, codes "path:main:t") ∷ (write, codes "branch:main") ∷ []) refl
