-- ===== src/Queue/Allowed.antt =====
-- engine/queue.go: what a batch's own calls to the core are allowed.
use snapshot_engine.Shared.{
  ℕ, zero, suc, ◌≡◌, refl, ap, sym, ◌∙◌, true, ◌&&◌, ◌⊎◌, inl, inr, none, some, List, [], ◌∷◌,
  arith, nat_beq, nat_beq_iff, Bool-cases, Option-cases, Bytes, bytes_comparable, ◌==◌,
}
use mathlib.Core.Path.{subst}
use snapshot_engine.Grants.Model.{Action, read, write, manage, admin, commit, merge, other}
use snapshot_engine.Queue.Publish.{
  Failure, CoreError, Granted, action_code, is_granted, Member, Calls, branch_resource,
  path_resource, check_paths, allow_paths, may_write, onto, apply_member,
}
use snapshot_engine.Queue.Attempt.{Outcomes, apply_all, read_check, find_lead}
use snapshot_engine.Queue.Ways.{Sum-cases}

abbrev action_of : ℕ → Action
action_of zero = read
action_of (suc zero) = write
action_of (suc (suc zero)) = manage
action_of (suc (suc (suc zero))) = admin
action_of (suc (suc (suc (suc zero)))) = commit
action_of (suc (suc (suc (suc (suc zero))))) = merge
action_of (suc (suc (suc (suc (suc (suc n)))))) = other n

action_of-action_code : (a : Action) → action_of (action_code a) ≡ a
action_of-action_code (other n) = refl
action_of-action_code _ = refl

-- Every question recorded has the property.
abbrev pub AllOf : (Action → Bytes → Type 0) → Granted → Type 0
AllOf P [] = Unit
AllOf P (q ∷ g) = P q.0 q.1 × AllOf P g

pub is_granted-AllOf :
    (P : Action → Bytes → Type 0) (g : Granted) (a : Action) (resource : Bytes)
    → AllOf P g
    → is_granted g a resource ≡ true
    → P a resource
is_granted-AllOf P [] a resource all e = cc
is_granted-AllOf P (q ∷ g) a resource all e =
    elim (Bool-cases (nat_beq (action_code q.0) (action_code a) && q.1 == resource)) [
      | inl same ↦
          let act : q.0 ≡ a =
            sym (action_of-action_code q.0)
            ∙ ap action_of ((nat_beq_iff (action_code q.0) (action_code a)).0 (ground arith))
            ∙ action_of-action_code a in
          let res : q.1 ≡ resource = (bytes_comparable.eq_iff q.1 resource).0 (ground arith) in
          subst (λ x. P x resource) act (subst (λ y. P q.0 y) res all.0)
      | inr later ↦ is_granted-AllOf P g a resource all.1 (ground arith)
    ]

module _ {N : Type 0} (calls : Calls N) (branch : Bytes) (P : Action → Bytes → Type 0) where
  -- What a member is allowed has the property.
  abbrev pub Vouches : Member N → Type 0
  Vouches m =
      (a : Action) (resource : Bytes)
      → calls.check m.ident m.principal a resource ≡ none
      → P a resource

  abbrev pub AllVouch : List (Member N) → Type 0
  AllVouch [] = Unit
  AllVouch (m ∷ batch) = Vouches m × AllVouch batch

  AllPaths : List Bytes → Type 0
  AllPaths [] = Unit
  AllPaths (path ∷ paths) = P write (path_resource branch path) × AllPaths paths

  Paths : Failure ⊎ List Bytes → Type 0
  Paths (inl e) = Unit
  Paths (inr paths) = AllPaths paths

  check_paths-Paths :
      (m : Member N) (items : List (CoreError ⊎ Bytes))
      → Vouches m
      → Paths (check_paths calls branch m items)
  unfolding check_paths Paths AllPaths
  check_paths-Paths m [] v = tt
  check_paths-Paths m (inl e ∷ items) v = tt
  check_paths-Paths m (inr path ∷ items) v =
      elim (Option-cases (calls.check m.ident m.principal write (path_resource branch path))) [
        | inr (e, c) ↦ rw (c, check_paths) tt
        | inl c ↦ elim (Sum-cases (check_paths calls branch m items)) [
          | inl (e, r) ↦ rw (c, check_paths) (rw (r, Paths) tt)
          | inr (paths, r) ↦
              rw (c, check_paths)
                (rw (r, Paths)
                  (
                    v write (path_resource branch path) c,
                    subst Paths r (check_paths-Paths m items v),
                  ))
        ]
      ]

  allow_paths-AllOf :
      (paths : List Bytes) (g : Granted)
      → AllPaths paths
      → AllOf P g
      → AllOf P (allow_paths calls branch paths g)
  unfolding AllPaths
  allow_paths-AllOf [] g h all = all
  allow_paths-AllOf (path ∷ paths) g h all = allow_paths-AllOf paths _ h.1 (h.0, all)

  Grants : Failure ⊎ Granted → Type 0
  Grants (inl e) = Unit
  Grants (inr g) = AllOf P g

  may_write-Grants :
      (m : Member N) (w next : N) (g : Granted)
      → Vouches m
      → AllOf P g
      → Grants (may_write calls branch m w next g)
  unfolding may_write Grants Paths
  may_write-Grants m w next g v all =
      elim (Option-cases (calls.check m.ident m.principal write (branch_resource branch))) [
        | inr (e, c) ↦ rw (c, may_write) tt
        | inl c ↦ elim (Sum-cases (calls.diff w next)) [
          | inl (e, d) ↦ rw (c, may_write) (rw d tt)
          | inr (items, d) ↦ elim (Sum-cases (check_paths calls branch m items)) [
            | inl (e, r) ↦ rw (c, may_write) (rw d (rw r tt))
            | inr (paths, r) ↦
                rw (c, may_write)
                  (rw d (
                    rw r (
                      allow_paths-AllOf paths _ (subst Paths r (check_paths-Paths m items v))
                        (v write (branch_resource branch) c, all))))
          ]
        ]
      ]

  MemberMade : Failure ⊎ N × Granted → Type 0
  MemberMade (inl e) = Unit
  MemberMade (inr r) = AllOf P r.1

  apply_member-MemberMade :
      (m : Member N) (w : N) (g : Granted)
      → Vouches m
      → AllOf P g
      → MemberMade (apply_member calls branch m w g)
  unfolding apply_member MemberMade Grants
  apply_member-MemberMade m w g v all = elim (Sum-cases (onto calls branch m w)) [
    | inl (e, o) ↦ rw (o, apply_member) tt
    | inr (next, o) ↦ elim (Sum-cases (may_write calls branch m w next g)) [
      | inl (e, r) ↦ rw (o, apply_member) (rw r tt)
      | inr (g', r) ↦
          rw (o, apply_member) (rw r (subst Grants r (may_write-Grants m w next g v all)))
    ]
  ]

  pub apply_all-AllOf :
      (batch : List (Member N)) (errs : Outcomes) (w : N) (g : Granted)
      → AllVouch batch
      → AllOf P g
      → AllOf P (apply_all calls branch batch errs w g).granted
  unfolding apply_all MemberMade
  apply_all-AllOf [] errs w g v all = all
  apply_all-AllOf (m ∷ batch) [] w g v all = all
  apply_all-AllOf (m ∷ batch) (some e ∷ errs) w g v all = apply_all-AllOf batch errs w g v.1 all
  apply_all-AllOf (m ∷ batch) (none ∷ errs) w g v all =
      elim (Sum-cases (apply_member calls branch m w g)) [
        | inl (e, h) ↦ rw (h, apply_all) (apply_all-AllOf batch errs w g v.1 all)
        | inr ((next, g'), h) ↦
            rw (h, apply_all)
              (apply_all-AllOf batch errs next g' v.1
                (subst MemberMade h (apply_member-MemberMade m w g v.0 all)))
      ]

  read_check-none :
      (m : Member N)
      → read_check calls branch m ≡ none
      → calls.check m.ident m.principal read (branch_resource branch) ≡ none
  unfolding read_check
  read_check-none m e = ground arith

  pub find_lead-AllOf :
      (batch : List (Member N)) (lead : Bytes) (g : Granted)
      → AllVouch batch
      → AllOf P g
      → AllOf P (find_lead calls branch batch lead g).1
  unfolding find_lead
  find_lead-AllOf [] lead g v all = all
  find_lead-AllOf (m ∷ batch) lead g v all = elim (Option-cases (read_check calls branch m)) [
    | inr (e, r) ↦ rw (r, find_lead) (find_lead-AllOf batch lead g v.1 all)
    | inl r ↦ elim (Bool-cases (lead == [])) [
      | inl l ↦
          rw (r, find_lead)
            (rw l (
              find_lead-AllOf batch m.principal _ v.1
                (v.0 read (branch_resource branch) (read_check-none m r), all)))
      | inr l ↦ rw (r, find_lead) (rw l (find_lead-AllOf batch lead g v.1 all))
    ]
  ]
