-- ===== src/Grants/Samples.antt =====
-- engine/grants.go: a small Grants, tests of it, and the theorems at it.
use snapshot_engine.Shared.{
  ℕ, ◌≡◌, ◌≢◌, ◌↔◌, ◌⊎◌, refl, Bool, true, false, not, ◌&&◌, ◌||◌, none, List, [], ◌∷◌, arith,
  Bytes, ◌==◌, bytes_comparable, codes, find, put, remove,
}
use snapshot_engine.Grants.Bits.{has, set_bit, clear_bit}
use snapshot_engine.Grants.Model.{
  scope_comparable, scope_eq, Action, read, write, perm_read, perm_write, perm_commit, Scope,
  database_scope, branch_scope, object_scope, Grants, zero_grants, perms_at, scopes_of,
  is_protected, validate, check_perm, check_perms, check_grant, set_perms, clear_perms, drop_empty,
  grant, revoke, protect, split, cut, on_an_object, answer, allows, authorize,
}
use snapshot_engine.Grants.Effects.{holds, mem, holds-grant, holds-revoke}
use snapshot_engine.Grants.Accepted.{IsGrantable, accepted_iff}
use snapshot_engine.Grants.Validity.{IsValid, Reach, new, next, granted, Reach-IsValid}
use snapshot_engine.Grants.Resources.{branch_resource, path_resource}
use snapshot_engine.Grants.Questions.{
  authorize-grant_mono, authorize-revoke_mono, authorize-path, WritesIn, authorize-branch_write_iff,
  authorize-protect,
}

abbrev any_path : Bytes → Bool
any_path p = true

abbrev ann : Bytes
ann = codes "ann"

abbrev dev : Bytes
dev = codes "dev"

abbrev item : Bytes
item = codes "t"

abbrev on_item : Scope
on_item = object_scope dev item

abbrev asked : List ℕ
asked = perm_read ∷ perm_write ∷ []

-- Ann reads and writes one object of the branch.
abbrev one : Grants
one = (grant any_path ann on_item asked zero_grants).1

one_granted : (grant any_path ann on_item asked zero_grants).0 ≡ none
unfolding grant check_grant validate check_perms check_perm scope_eq
one_granted = refl

one_revoked : (revoke any_path ann on_item (perm_write ∷ []) one).0 ≡ none
unfolding grant revoke check_grant validate check_perms check_perm scope_eq find put set_perms
    scopes_of
one_revoked = refl

one-Reach : Reach any_path one
one-Reach = next new (granted ann on_item asked)

one_protected : (protect dev one).0 ≡ none
unfolding protect
one_protected = refl

one_writes : authorize one ann write (path_resource dev item) ≡ true
unfolding grant check_grant validate check_perms check_perm scope_eq find put set_perms scopes_of
    set_bit perms_at authorize allows split cut answer has
one_writes = refl

one_after_revoke :
    authorize (revoke any_path ann on_item (perm_write ∷ []) one).1 ann read (branch_resource dev)
    ≡ true
unfolding grant revoke check_grant validate check_perms check_perm scope_eq find put remove
    set_perms clear_perms drop_empty scopes_of set_bit clear_bit perms_at authorize allows split cut
    answer has on_an_object
one_after_revoke = refl

holds-grant_example :
    holds one ann on_item 2
    ≡ (holds zero_grants ann on_item 2 || (ann == ann && (on_item == on_item && mem 2 asked)))
holds-grant_example =
    holds-grant any_path ann on_item asked zero_grants one_granted ann on_item 2 (omega arith)
      (omega arith)

holds-revoke_example : holds (revoke any_path ann on_item (perm_write ∷ []) one).1 ann on_item 1 ≡ (
    holds one ann on_item 1 && not (ann == ann && (on_item == on_item && mem 1 (perm_write ∷ []))))
holds-revoke_example =
    holds-revoke any_path ann on_item (perm_write ∷ []) one one_revoked ann on_item 1 (omega arith)
      (omega arith)

Reach-IsValid_example : IsValid one
Reach-IsValid_example = Reach-IsValid any_path one-Reach

nobody : find (codes "bob") one.grants ≡ none
unfolding grant check_grant validate check_perms check_perm scope_eq find put
nobody = refl

second_granted : (grant any_path (codes "bob") database_scope (perm_commit ∷ []) one).0 ≡ none
unfolding grant check_grant validate check_perms check_perm scope_eq
second_granted = refl

authorize-grant_mono_example :
    authorize
      (grant any_path (codes "bob") database_scope (perm_commit ∷ []) one).1
      ann
      write
      (path_resource dev item)
    ≡ true
authorize-grant_mono_example =
    authorize-grant_mono any_path (codes "bob") database_scope (perm_commit ∷ []) one
      (Reach-IsValid any_path one-Reach) second_granted ann write (path_resource dev item)
      one_writes

authorize-revoke_mono_example : authorize one ann read (branch_resource dev) ≡ true
authorize-revoke_mono_example =
    authorize-revoke_mono any_path ann on_item (perm_write ∷ []) one
      (Reach-IsValid any_path one-Reach) one_revoked ann read (branch_resource dev) one_after_revoke

named : dev ≢ []
named e = ground arith

item_named : item ≢ []
item_named e = ground arith

authorize-path_example :
    (authorize one ann write (path_resource dev item) ≡ (
      holds one ann database_scope perm_write
      || holds one ann (branch_scope dev) perm_write
      || holds one ann (object_scope dev item) perm_write))
    × (authorize one ann read (path_resource dev item) ≡ (
        holds one ann database_scope perm_read
        || holds one ann (branch_scope dev) perm_read
        || holds one ann (object_scope dev item) perm_read))
authorize-path_example = authorize-path one ann dev item named item_named refl

authorize-branch_write_iff_example :
    (authorize one ann write (branch_resource dev) ≡ true)
    ↔ (is_protected dev one ≡ false) × WritesIn (scopes_of ann one) dev
authorize-branch_write_iff_example =
    authorize-branch_write_iff one (Reach-IsValid any_path one-Reach) ann dev named

authorize-protect_example :
    ((protect dev one).0 ≡ none)
    × (authorize (protect dev one).1 ann write (branch_resource dev) ≡ false)
    × ((a : Action) (resource : Bytes)
        → (a ≡ write → resource ≡ branch_resource dev → ⊥)
        → authorize (protect dev one).1 ann a resource ≡ authorize one ann a resource)
authorize-protect_example = authorize-protect one dev ann named refl

accepted_iff_example :
    (((grant any_path ann on_item asked one).0 ≡ none) ↔ IsGrantable any_path ann on_item asked)
    × (((revoke any_path ann on_item asked one).0 ≡ none) ↔ IsGrantable any_path ann on_item asked)
    × (((grant any_path ann on_item asked one).0 ≡ none)
        ⊎ ((grant any_path ann on_item asked one).1 ≡ one))
    × (((revoke any_path ann on_item asked one).0 ≡ none)
        ⊎ ((revoke any_path ann on_item asked one).1 ≡ one))
accepted_iff_example = accepted_iff any_path ann on_item asked one
