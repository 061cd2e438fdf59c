-- ===== src/Queue/Asked.antt =====
-- engine/queue.go: what the members of a batch ask and make does not depend on the core's answers to `WorkingSet` and
-- `UpdateWorkingSet`.
use snapshot_engine.Shared.{
  suc, ◌≡◌, refl, ap, ◌∙◌, ◌⊎◌, inl, inr, Option, none, some, List, [], ◌∷◌, Bool-cases,
  Option-cases, Bytes, bytes_comparable, ◌==◌,
}
use snapshot_engine.Grants.Model.{read, write}
use snapshot_engine.Queue.Publish.{
  branch_resource, path_resource, CoreError, Granted, Authorizer, Working, Member, Calls,
  check_paths, allow_paths, may_write, onto, apply_member,
}
use snapshot_engine.Queue.Attempt.{Outcomes, Applied, read_check, read_checks, find_lead, apply_all}
use snapshot_engine.Queue.Ways.{Sum-cases}

-- The same members and authorizer over another core.
abbrev pub over :
    {N : Type 0}
    → Calls N
    → (Authorizer → Bytes → CoreError ⊎ Working)
    → (Authorizer → Bytes → Working → Working → Option CoreError)
    → Calls N
over calls reads writes = record calls { working_set = reads; update = writes }

module _ {N : Type 0} (calls : Calls N) (branch : Bytes)
    (reads : Authorizer → Bytes → CoreError ⊎ Working)
    (writes : Authorizer → Bytes → Working → Working → Option CoreError) where
  pub read_checks-over :
      (batch : List (Member N))
      → read_checks (over calls reads writes) branch batch ≡ read_checks calls branch batch
  unfolding read_checks read_check
  read_checks-over [] = refl
  read_checks-over (m ∷ batch) = ap (λ r. read_check calls branch m ∷ r) (read_checks-over batch)

  pub find_lead-over :
      (batch : List (Member N)) (lead : Bytes) (g : Granted)
      → find_lead (over calls reads writes) branch batch lead g
        ≡ find_lead calls branch batch lead g
  unfolding find_lead read_check
  find_lead-over [] lead g = refl
  find_lead-over (m ∷ batch) lead g =
      elim (Option-cases (calls.check m.ident m.principal read (branch_resource branch))) [
        | inr (e, c) ↦ rw (c, find_lead, read_check) (find_lead-over batch lead g)
        | inl c ↦ elim (Bool-cases (lead == [])) [
          | inl l ↦ rw (c, find_lead, read_check) (rw l (find_lead-over batch m.principal _))
          | inr l ↦ rw (c, find_lead, read_check) (rw l (find_lead-over batch lead g))
        ]
      ]

  allow_paths-over :
      (paths : List Bytes) (g : Granted)
      → allow_paths (over calls reads writes) branch paths g ≡ allow_paths calls branch paths g
  allow_paths-over [] g = refl
  allow_paths-over (path ∷ paths) g = allow_paths-over paths _

  check_paths-over :
      (m : Member N) (items : List (CoreError ⊎ Bytes))
      → check_paths (over calls reads writes) branch m items ≡ check_paths calls branch m items
  unfolding check_paths
  check_paths-over m [] = refl
  check_paths-over m (inl e ∷ items) = refl
  check_paths-over m (inr path ∷ items) =
      elim (Option-cases (calls.check m.ident m.principal write (path_resource branch path))) [
        | inr (e, c) ↦ rw (c, check_paths) refl
        | inl c ↦
            rw (c, check_paths)
              (ap (λ r. elim r [ inl e ↦ inl e | inr paths ↦ inr (path ∷ paths) ])
                (check_paths-over m items))
      ]

  may_write-over :
      (m : Member N) (from next : N) (g : Granted)
      → may_write (over calls reads writes) branch m from next g
        ≡ may_write calls branch m from next g
  unfolding may_write
  may_write-over m from next g =
      elim (Option-cases (calls.check m.ident m.principal write (branch_resource branch))) [
        | inr (e, c) ↦ rw (c, may_write) refl
        | inl c ↦ elim (Sum-cases (calls.diff from next)) [
          | inl (e, d) ↦ rw (c, may_write) (rw d refl)
          | inr (items, d) ↦ elim (Sum-cases (check_paths calls branch m items)) [
            | inl (e, r) ↦ rw (c, may_write) (rw d (rw (check_paths-over m items ∙ r) (rw r refl)))
            | inr (paths, r) ↦
                rw (c, may_write)
                  (rw d
                    (rw (check_paths-over m items ∙ r) (rw r (ap inr (allow_paths-over paths _)))))
          ]
        ]
      ]

  apply_member-over :
      (m : Member N) (w : N) (g : Granted)
      → apply_member (over calls reads writes) branch m w g ≡ apply_member calls branch m w g
  unfolding apply_member onto
  apply_member-over m w g = elim (Sum-cases (onto calls branch m w)) [
    | inl (e, o) ↦ rw (o, apply_member) refl
    | inr (next, o) ↦
        rw (o, apply_member)
          (ap (λ r. elim r [ inl e ↦ inl e | inr g' ↦ inr (next, g') ]) (may_write-over m w next g))
  ]

  pub apply_all-over :
      (batch : List (Member N)) (errs : Outcomes) (w : N) (g : Granted)
      → apply_all (over calls reads writes) branch batch errs w g
        ≡ apply_all calls branch batch errs w g
  unfolding apply_all
  apply_all-over [] errs w g = refl
  apply_all-over (m ∷ batch) [] w g = refl
  apply_all-over (m ∷ batch) (some e ∷ errs) w g = rw (apply_all-over batch errs w g) refl
  apply_all-over (m ∷ batch) (none ∷ errs) w g =
      elim (Sum-cases (apply_member calls branch m w g)) [
        | inl (e, r) ↦
            rw (apply_member-over m w g ∙ r, apply_all)
              (rw (r, apply_all)
                (ap (λ (a : Applied N). record a { errs = some e ∷ a.errs })
                  (apply_all-over batch errs w g)))
        | inr ((next, g'), r) ↦
            rw (apply_member-over m w g ∙ r, apply_all)
              (rw (r, apply_all)
                (ap (λ (a : Applied N). record a { errs = none ∷ a.errs; count = suc a.count })
                  (apply_all-over batch errs next g')))
      ]
