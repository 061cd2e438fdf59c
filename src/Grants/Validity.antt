-- ===== src/Grants/Validity.antt =====
-- engine/grants.go: the invariant of `Grants`, kept by every call that changes one.
use snapshot_engine.Shared.{
  ℕ, ◌≡◌, refl, Bool, true, false, none, some, List, [], ◌∷◌, arith, Bytes, ◌==◌, find, put,
  find-put, bytes_comparable, IsUnique, put-IsUnique, remove-IsUnique, if◌then◌else◌, Option-cases,
  inl, inr,
}
use snapshot_engine.Grants.Model.{
  Scope, Scopes, scope_comparable, Grants, scopes_of, check_grant, set_perms, clear_perms,
  drop_empty, grant, revoke, protect, unprotect, zero_grants,
}
use snapshot_engine.Grants.Effects.{scopes_of-put}

-- Each principal's scopes are distinct, and nothing is stored for an empty principal.
pub record IsValid (g : Grants) : Type 0 where
  pub unique : (principal : Bytes) → IsUnique (scopes_of principal g)
  pub anonymous : find [] g.grants ≡ none

set_perms-IsUnique :
    (s : Scope) (perms : List ℕ) (m : Scopes) → IsUnique m → IsUnique (set_perms s perms m)
unfolding set_perms
set_perms-IsUnique s [] m h = h
set_perms-IsUnique s (p ∷ ps) m h = set_perms-IsUnique s ps _ (put-IsUnique s _ m h)

clear_perms-IsUnique :
    (s : Scope) (perms : List ℕ) (m : Scopes) → IsUnique m → IsUnique (clear_perms s perms m)
unfolding clear_perms
clear_perms-IsUnique s [] m h = h
clear_perms-IsUnique s (p ∷ ps) m h = clear_perms-IsUnique s ps _ (put-IsUnique s _ m h)

if_keeps {ℓ κ} :
    {A : Type ℓ} (P : A → Type κ) (b : Bool) {x y : A} → P x → P y → P (if b then x else y)
if_keeps P true px py = px
if_keeps P false px py = py

drop_empty-IsUnique : (s : Scope) (m : Scopes) → IsUnique m → IsUnique (drop_empty s m)
unfolding drop_empty
drop_empty-IsUnique s m h = if_keeps IsUnique _ (remove-IsUnique s m h) h

check_grant-principal :
    (valid_path : Bytes → Bool) (principal : Bytes) (s : Scope) (perms : List ℕ)
    → check_grant valid_path principal s perms ≡ none
    → (principal == []) ≡ false
unfolding check_grant
check_grant-principal valid_path principal s perms h = ground arith

module _ (principal : Bytes) (m : Scopes) (g : Grants) (v : IsValid g) where
  put-IsValid :
      IsUnique m
      → (principal == []) ≡ false
      → IsValid (record g { grants = put principal m g.grants })
  put-IsValid u named = record {
    unique =
        λ other. rw (scopes_of-put principal other m g) (if_keeps IsUnique _ u (v.unique other));
    anonymous = rw (find-put principal [] m g.grants) (rw named v.anonymous);
  }

module _ (valid_path : Bytes → Bool) (principal : Bytes) (s : Scope) (perms : List ℕ) (g : Grants)
    (v : IsValid g) where
  -- Grant, Revoke, Protect and Unprotect keep the invariant, accepted or refused.
  pub grant-IsValid : IsValid (grant valid_path principal s perms g).1
  unfolding grant
  grant-IsValid = elim (Option-cases (check_grant valid_path principal s perms)) [
    | inl e ↦
        rw (e, grant)
          (put-IsValid principal _ g v (set_perms-IsUnique s perms _ (v.unique principal))
            (check_grant-principal valid_path principal s perms e))
    | inr (r, e) ↦ rw (e, grant) v
  ]

  revoke_found :
      (m : Scopes)
      → find principal g.grants ≡ some m
      → check_grant valid_path principal s perms ≡ none
      → IsValid
          (record g { grants = put principal (drop_empty s (clear_perms s perms m)) g.grants })
  unfolding scopes_of
  revoke_found m e ok =
      let u : IsUnique m = rw (e, scopes_of) at (v.unique principal) in
      put-IsValid principal _ g v (drop_empty-IsUnique s _ (clear_perms-IsUnique s perms m u))
        (check_grant-principal valid_path principal s perms ok)

  pub revoke-IsValid : IsValid (revoke valid_path principal s perms g).1
  unfolding revoke
  revoke-IsValid = elim (Option-cases (check_grant valid_path principal s perms)) [
    | inl ok ↦ elim (Option-cases (find principal g.grants)) [
      | inl e ↦ rw (ok, revoke) (rw (e, revoke) v)
      | inr (m, e) ↦ rw (ok, revoke) (rw (e, revoke) (revoke_found m e ok))
    ]
    | inr (r, e) ↦ rw (e, revoke) v
  ]

-- What a Protect or an Unprotect leaves: the same grants.
same_grants : (g h : Grants) → h.grants ≡ g.grants → IsValid g → IsValid h
unfolding scopes_of
same_grants g h e v = record {
  unique = λ p. rw (e, scopes_of) (v.unique p);
  anonymous = rw e v.anonymous;
}

pub protect-IsValid : (b : Bytes) (g : Grants) → IsValid g → IsValid (protect b g).1
unfolding protect
protect-IsValid b g v = same_grants g (protect b g).1 (ground arith) v

pub unprotect-IsValid : (b : Bytes) (g : Grants) → IsValid g → IsValid (unprotect b g)
unfolding unprotect
unprotect-IsValid b g v = same_grants g (unprotect b g) refl v

-- The first Grants, and every Grants that valid calls make of a valid one.
pub data Step (valid_path : Bytes → Bool) (g : Grants) : Grants → Type 0 where
  granted :
      (principal : Bytes) (s : Scope) (perms : List ℕ)
      → Step valid_path g (grant valid_path principal s perms g).1
  revoked :
      (principal : Bytes) (s : Scope) (perms : List ℕ)
      → Step valid_path g (revoke valid_path principal s perms g).1
  protected : (b : Bytes) → Step valid_path g (protect b g).1
  unprotected : (b : Bytes) → Step valid_path g (unprotect b g)

pub data Reach (valid_path : Bytes → Bool) : Grants → Type 0 where
  new : Reach valid_path zero_grants
  next : {g h : Grants} → Reach valid_path g → Step valid_path g h → Reach valid_path h

Step-IsValid :
    (valid_path : Bytes → Bool) {g h : Grants} → Step valid_path g h → IsValid g → IsValid h
Step-IsValid valid_path {g} (granted p s perms) v = grant-IsValid valid_path p s perms g v
Step-IsValid valid_path {g} (revoked p s perms) v = revoke-IsValid valid_path p s perms g v
Step-IsValid valid_path {g} (protected b) v = protect-IsValid b g v
Step-IsValid valid_path {g} (unprotected b) v = unprotect-IsValid b g v

zero_grants-IsValid : IsValid zero_grants
unfolding scopes_of find
zero_grants-IsValid = record { unique = λ p. tt; anonymous = refl }

-- Whatever calls of Grant, Revoke, Protect and Unprotect are made on a new Grants, accepted or
-- refused, the scopes of each principal stay distinct and nothing is stored for an empty principal.
pub Reach-IsValid : (valid_path : Bytes → Bool) {g : Grants} → Reach valid_path g → IsValid g
Reach-IsValid valid_path new = zero_grants-IsValid
Reach-IsValid valid_path (next r st) = Step-IsValid valid_path st (Reach-IsValid valid_path r)
