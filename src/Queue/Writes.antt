-- ===== src/Queue/Writes.antt =====
-- engine/queue.go: what a member was allowed before it is applied.
use snapshot_engine.Shared.{◌≡◌, ◌⊎◌, inl, inr, none, List, [], ◌∷◌, arith, Option-cases, Bytes}
use snapshot_engine.Grants.Model.{write}
use snapshot_engine.Queue.Publish.{
  CoreError, Granted, Member, Calls, branch_resource, path_resource, onto, check_paths, may_write,
  apply_member,
}
use snapshot_engine.Queue.Ways.{Sum-cases}

module _ {N : Type 0} (calls : Calls N) (branch : Bytes) where
  -- The iterator gave its paths without an error, and the member may write every one.
  abbrev pub AllAsked : Member N → List (CoreError ⊎ Bytes) → Type 0
  AllAsked m [] = Unit
  AllAsked m (inl e ∷ items) = ⊥
  AllAsked m (inr path ∷ items) =
      (calls.check m.ident m.principal write (path_resource branch path) ≡ none) × AllAsked m items

  check_paths-AllAsked :
      (m : Member N) (items : List (CoreError ⊎ Bytes)) (paths : List Bytes)
      → check_paths calls branch m items ≡ inr paths
      → AllAsked m items
  unfolding check_paths
  check_paths-AllAsked m [] paths h = tt
  check_paths-AllAsked m (inl e ∷ items) paths h = absurd (cc)
  check_paths-AllAsked m (inr path ∷ items) paths h =
      elim (Option-cases (calls.check m.ident m.principal write (path_resource branch path))) [
        | inr (e, c) ↦ absurd (ground (arith, c))
        | inl c ↦ elim (Sum-cases (check_paths calls branch m items)) [
          | inl (e, r) ↦ absurd (ground (arith, c, r))
          | inr (rest, r) ↦ (c, check_paths-AllAsked m items rest r)
        ]
      ]

  -- What holds of a member that was applied to w and made next of it.
  pub record IsAllowed (m : Member N) (w next : N) : Type 0 where
    pub moved : onto calls branch m w ≡ inr next
    pub on_branch : calls.check m.ident m.principal write (branch_resource branch) ≡ none
    pub items : List (CoreError ⊎ Bytes)
    pub differs : calls.diff w next ≡ inr items
    pub on_paths : AllAsked m items

  -- A member is applied only where it may write the branch and every path at which what it makes differs from
  -- what it was given: each was asked in the member's own name.
  pub apply_member-IsAllowed :
      (m : Member N) (w next : N) (g g' : Granted)
      → apply_member calls branch m w g ≡ inr (next, g')
      → IsAllowed m w next
  unfolding apply_member may_write
  apply_member-IsAllowed m w next g g' h = elim (Sum-cases (onto calls branch m w)) [
    | inl (e, o) ↦ absurd (ground (arith, o))
    | inr (n, o) ↦
        elim (Option-cases (calls.check m.ident m.principal write (branch_resource branch))) [
          | inr (e, c) ↦ absurd (ground (arith, o, c))
          | inl c ↦ elim (Sum-cases (calls.diff w n)) [
            | inl (e, d) ↦ absurd (ground (arith, o, c, d))
            | inr (items, d) ↦ elim (Sum-cases (check_paths calls branch m items)) [
              | inl (e, r) ↦ absurd (ground (arith, o, c, d, r))
              | inr (paths, r) ↦
                  let same : n ≡ next = ground (arith, o, c, d, r) in
                  record {
                    moved = rw⁻¹ same o;
                    on_branch = c;
                    items = items;
                    differs = rw⁻¹ same d;
                    on_paths = check_paths-AllAsked m items paths r;
                  }
            ]
          ]
        ]
  ]
