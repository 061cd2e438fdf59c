-- ===== src/Grants/Effects.antt =====
-- engine/grants.go: what Grant and Revoke change, permission by permission.
use snapshot_engine.Shared.{
  bytes_comparable, ℕ, ◌≤◌, ◌≡◌, Bool, false, not, ◌&&◌, ◌||◌, none, List, [], ◌∷◌, arith, nat_beq,
  if◌then◌else◌, any, Bytes, ◌==◌, find, put, find-put, find-remove,
}
use snapshot_engine.Grants.Bits.{has, set_bit, clear_bit, has-set_bit, has-clear_bit}
use snapshot_engine.Grants.Model.{
  Scope, Scopes, Grants, scope_comparable, scope_eq_iff, perms_at, scopes_of, held_at, check_perm,
  check_perms, check_grant, set_perms, clear_perms, drop_empty, grant, revoke,
}

-- The principal holds p at the scope.
abbrev pub holds : Grants → Bytes → Scope → ℕ → Bool
holds g principal s p = held_at (scopes_of principal g) s p

abbrev pub mem : ℕ → List ℕ → Bool
mem q perms = any (λ p. nat_beq p q) perms

-- Every permission of the list is one.
abbrev pub ArePerms : List ℕ → Type 0
ArePerms [] = Unit
ArePerms (p ∷ ps) = (1 ≤ p) × (p ≤ 6) × ArePerms ps

perms_at-put :
    (s t : Scope) (ps : ℕ) (m : Scopes)
    → perms_at t (put s ps m) ≡ (if s == t then ps else perms_at t m)
unfolding perms_at
perms_at-put s t ps m = ground (arith, find-put s t ps m)

perms_at-drop_empty : (s t : Scope) (m : Scopes) → perms_at t (drop_empty s m) ≡ perms_at t m
unfolding perms_at drop_empty
perms_at-drop_empty s t m = ground (arith, find-remove s t m, scope_eq_iff s t)

check_perms-ArePerms : (s : Scope) (perms : List ℕ) → check_perms s perms ≡ none → ArePerms perms
unfolding check_perms check_perm
check_perms-ArePerms s [] h = tt
check_perms-ArePerms s (p ∷ ps) h =
    (ground arith, ground arith, check_perms-ArePerms s ps (ground arith))

module _ (s t : Scope) (q : ℕ) (low : 1 ≤ q) (high : q ≤ 6) where
  has-set_perms :
      (perms : List ℕ) (m : Scopes)
      → ArePerms perms
      → held_at (set_perms s perms m) t q ≡ (held_at m t q || (s == t && mem q perms))
  unfolding set_perms
  has-set_perms [] m h = ground arith
  has-set_perms (p ∷ ps) m h =
      let ps' = set_bit (perms_at s m) p in
      ground (
        arith,
        has-set_perms ps (put s ps' m) h.2,
        perms_at-put s t ps' m,
        has-set_bit (perms_at s m) p q h.0 h.1 low high,
        scope_eq_iff s t,
      )

  has-clear_perms :
      (perms : List ℕ) (m : Scopes)
      → ArePerms perms
      → held_at (clear_perms s perms m) t q ≡ (held_at m t q && not (s == t && mem q perms))
  unfolding clear_perms
  has-clear_perms [] m h = ground arith
  has-clear_perms (p ∷ ps) m h =
      let ps' = clear_bit (perms_at s m) p in
      ground (
        arith,
        has-clear_perms ps (put s ps' m) h.2,
        perms_at-put s t ps' m,
        has-clear_bit (perms_at s m) p q h.0 h.1 low high,
        scope_eq_iff s t,
      )

check_grant-ArePerms :
    (valid_path : Bytes → Bool) (principal : Bytes) (s : Scope) (perms : List ℕ)
    → check_grant valid_path principal s perms ≡ none
    → ArePerms perms
unfolding check_grant
check_grant-ArePerms valid_path principal s perms h = check_perms-ArePerms s perms (ground arith)

pub scopes_of-put :
    (principal other : Bytes) (m : Scopes) (g : Grants)
    → scopes_of other (record g { grants = put principal m g.grants })
      ≡ (if principal == other then m else scopes_of other g)
unfolding scopes_of
scopes_of-put principal other m g = ground (arith, find-put principal other m g.grants)

pub unstored : (t : Scope) (q : ℕ) → held_at [] t q ≡ false
unfolding perms_at has find
unstored t q = ground arith

module _ (valid_path : Bytes → Bool) (principal : Bytes) (s : Scope) (perms : List ℕ)
    (g : Grants) where
  -- A Grant that is accepted adds exactly the permissions it names, at its scope, to its principal:
  -- every other principal, scope and permission reads as before.
  pub holds-grant :
      (grant valid_path principal s perms g).0 ≡ none
      → (other : Bytes) (t : Scope) (q : ℕ) → 1 ≤ q
      → q ≤ 6
      → holds (grant valid_path principal s perms g).1 other t q
        ≡ (holds g other t q || (principal == other && (s == t && mem q perms)))
  unfolding grant
  holds-grant ok other t q low high =
      let m = set_perms s perms (scopes_of principal g) in
      let e : check_grant valid_path principal s perms ≡ none = ground arith in
      ground (
        arith,
        e,
        scopes_of-put principal other m g,
        has-set_perms s t q low high perms (scopes_of principal g)
            (check_grant-ArePerms valid_path principal s perms e),
        bytes_comparable.eq_iff principal other,
      )

  -- A Revoke that is accepted takes back exactly the permissions it names, at its scope, from its
  -- principal; every other principal, scope and permission reads as before.
  pub holds-revoke :
      (revoke valid_path principal s perms g).0 ≡ none
      → (other : Bytes) (t : Scope) (q : ℕ) → 1 ≤ q
      → q ≤ 6
      → holds (revoke valid_path principal s perms g).1 other t q
        ≡ (holds g other t q && not (principal == other && (s == t && mem q perms)))
  unfolding revoke scopes_of
  holds-revoke ok other t q low high =
      let m = clear_perms s perms (scopes_of principal g) in
      let e : check_grant valid_path principal s perms ≡ none = ground arith in
      ground (
        arith,
        e,
        scopes_of-put principal other (drop_empty s m) g,
        perms_at-drop_empty s t m,
        has-clear_perms s t q low high perms (scopes_of principal g)
            (check_grant-ArePerms valid_path principal s perms e),
        bytes_comparable.eq_iff principal other,
        unstored t q,
      )
