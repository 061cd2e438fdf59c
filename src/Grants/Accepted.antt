-- ===== src/Grants/Accepted.antt =====
-- engine/grants.go: which calls of Grant and Revoke are accepted (`checkGrant`, `Scope.validate`).
use mathlib.Core.Path.{subst}
use snapshot_engine.Shared.{
  nat_beq_iff, bytes_comparable, ℕ, ◌≤◌, ◌≡◌, ◌≢◌, ◌↔◌, ◌⊎◌, inl, inr, Bool, true, false, none,
  List, [], ◌∷◌, arith, nat_beq, Bytes, Bool-cases,
}
use snapshot_engine.Grants.Model.{
  Scope, Grants, database_scope, scope_comparable, scope_eq_iff, has_colon, perm_read, perm_write,
  perm_admin, validate, check_perm, check_perms, check_grant, grant, revoke,
}
use snapshot_engine.Grants.Effects.{mem}

-- The permission may be given at the scope: on an object Read or Write alone, and Admin on the database alone.
abbrev pub IsTaken : Scope → ℕ → Type 0
IsTaken s p =
    (perm_read ≤ p)
    × (p ≤ perm_admin)
    × (s.object ≢ [] → (p ≡ perm_read) ⊎ (p ≡ perm_write))
    × (p ≡ perm_admin → s ≡ database_scope)

-- The scope names what it must: an object is a path of a branch that is named, and no branch's name has a colon.
abbrev pub IsScope : (Bytes → Bool) → Scope → Type 0
IsScope valid_path s =
    (s.object ≢ [] → (s.branch ≢ []) × (valid_path s.object ≡ true)) × (has_colon s.branch ≡ false)

abbrev pub IsGrantable : (Bytes → Bool) → Bytes → Scope → List ℕ → Type 0
IsGrantable valid_path principal s perms =
    (principal ≢ [])
    × (perms ≢ [])
    × IsScope valid_path s
    × ((p : ℕ) → mem p perms ≡ true → IsTaken s p)

check_perm_iff : (s : Scope) (p : ℕ) → (check_perm s p ≡ none) ↔ IsTaken s p
unfolding check_perm
check_perm_iff s p =
    ground (arith, bytes_comparable.eq_iff s.object [], scope_eq_iff s database_scope)

validate_iff :
    (valid_path : Bytes → Bool) (s : Scope) → (validate valid_path s ≡ none) ↔ IsScope valid_path s
unfolding validate
validate_iff valid_path s =
    ground (arith, bytes_comparable.eq_iff s.object [], bytes_comparable.eq_iff s.branch [])

check_perms_all :
    (s : Scope) (perms : List ℕ)
    → check_perms s perms ≡ none
    → (p : ℕ) → mem p perms ≡ true
    → IsTaken s p
unfolding check_perms
check_perms_all s [] h p m = absurd (ground arith)
check_perms_all s (q ∷ perms) h p m = elim (Bool-cases (nat_beq q p)) [
  | inl e ↦ subst (λ r. IsTaken s r) ((nat_beq_iff q p).0 e) ((check_perm_iff s q).0 (ground arith))
  | inr e ↦ check_perms_all s perms (ground arith) p (ground arith)
]

all_check_perms :
    (s : Scope) (perms : List ℕ)
    → ((p : ℕ) → mem p perms ≡ true → IsTaken s p)
    → check_perms s perms ≡ none
unfolding check_perms
all_check_perms s [] h = ground arith
all_check_perms s (q ∷ perms) h =
    rw ((check_perm_iff s q).1 (h q (ground arith)), check_perms)
      (all_check_perms s perms λ p m. h p (ground arith))

module _ (valid_path : Bytes → Bool) (principal : Bytes) (s : Scope) (perms : List ℕ)
    (g : Grants) where
  check_grant_iff :
      (check_grant valid_path principal s perms ≡ none) ↔ IsGrantable valid_path principal s perms
  unfolding check_grant
  check_grant_iff = (
    λ e. (
      λ n. ground (arith, bytes_comparable.eq_iff principal []),
      λ n. ground (arith, bytes_comparable.eq_iff perms []),
      (validate_iff valid_path s).0 (ground arith),
      check_perms_all s perms (ground arith),
    ),
    λ (named, some_perm, scope, all). ground (
      arith,
      bytes_comparable.eq_iff principal [],
      bytes_comparable.eq_iff perms [],
      (validate_iff valid_path s).1 scope,
      all_check_perms s perms all,
    ),
  )

  -- Grant and Revoke are accepted exactly where the principal is named, there is some permission, and the scope is one
  -- at which every one of them may be given. A call that is not accepted changes nothing.
  pub accepted_iff :
      (((grant valid_path principal s perms g).0 ≡ none) ↔ IsGrantable valid_path principal s perms)
      × (((revoke valid_path principal s perms g).0 ≡ none)
          ↔ IsGrantable valid_path principal s perms)
      × (((grant valid_path principal s perms g).0 ≡ none)
          ⊎ ((grant valid_path principal s perms g).1 ≡ g))
      × (((revoke valid_path principal s perms g).0 ≡ none)
          ⊎ ((revoke valid_path principal s perms g).1 ≡ g))
  unfolding grant revoke
  accepted_iff = (
    (λ e. check_grant_iff.0 (ground arith), λ h. ground (arith, check_grant_iff.1 h)),
    (λ e. check_grant_iff.0 (ground arith), λ h. ground (arith, check_grant_iff.1 h)),
    ground arith,
    ground arith,
  )
