-- ===== src/Grants/Questions.antt =====
-- engine/grants.go: which questions `Authorize` allows.
use mathlib.Core.Path.{ap₂}
use snapshot_engine.Shared.{
  ℕ, ◌≤◌, ◌≡◌, ◌≢◌, ◌↔◌, refl, sym, ◌∙◌, Bool, true, false, ◌||◌, none, List, [], arith, Bytes,
  ◌==◌, bytes_comparable, ◌⊎◌, inl, inr, find, find-put, IsUnique, if◌then◌else◌, Bool-cases,
}
use snapshot_engine.Grants.Model.{
  scope_comparable, Action, read, write, manage, admin, commit, merge, perm_read, perm_write,
  perm_commit, perm_merge, perm_branch_admin, perm_admin, Scope, Scopes, database_scope,
  branch_scope, object_scope, Grants, Kind, repo, tag, branch, path, scopes_of, is_protected,
  has_colon, split, anywhere, on_an_object, held_at, on_branch, answer, allows, authorize, grant,
  revoke, protect,
}
use snapshot_engine.Grants.Effects.{holds, unstored, holds-grant, holds-revoke}
use snapshot_engine.Grants.Validity.{IsValid, revoke-IsValid}
use snapshot_engine.Grants.Answers.{on_an_object_held, held_on_an_object, answer_mono}
use snapshot_engine.Grants.Resources.{
  branch_resource, path_resource, split-branch_resource, split-path_resource, split_branch_sound,
}

-- An answer reads the protected branches at its own branch alone.
answer_protected :
    (g h : Grants) (m : Scopes) (a : Action) (k : Kind) (b o : Bytes)
    → is_protected b g ≡ is_protected b h
    → answer g m a k b o ≡ answer h m a k b o
unfolding answer
answer_protected g h m write branch b o e = rw e
answer_protected g h m _ _ b o e = refl

-- Only a Write asked of a branch reads them.
answer_unprotected :
    (g h : Grants) (m : Scopes) (a : Action) (k : Kind) (b o : Bytes)
    → (a ≡ write → k ≡ branch → ⊥)
    → answer g m a k b o ≡ answer h m a k b o
unfolding answer
answer_unprotected g h m write branch b o n = absurd (n refl refl)
answer_unprotected g h m _ _ b o n = refl

on_branch_nothing : (b : Bytes) (p : ℕ) → on_branch [] b p ≡ false
on_branch_nothing b p = ground (arith, unstored database_scope p, unstored (branch_scope b) p)

answer_nothing_held :
    (g : Grants) (a : Action) (k : Kind) (b o : Bytes) → answer g [] a k b o ≡ false
unfolding answer anywhere on_an_object
answer_nothing_held g admin repo b o = unstored database_scope perm_admin
answer_nothing_held g manage tag b o = unstored database_scope perm_branch_admin
answer_nothing_held g read branch b o = ground (arith, on_branch_nothing b perm_read)
answer_nothing_held g write branch b o = ground (arith, on_branch_nothing b perm_write)
answer_nothing_held g commit branch b o = on_branch_nothing b perm_commit
answer_nothing_held g merge branch b o = on_branch_nothing b perm_merge
answer_nothing_held g manage branch b o = on_branch_nothing b perm_branch_admin
answer_nothing_held g write path b o =
    ground (arith, on_branch_nothing b perm_write, unstored (object_scope b o) perm_write)
answer_nothing_held g read path b o =
    ground (arith, on_branch_nothing b perm_read, unstored (object_scope b o) perm_read)
answer_nothing_held g _ _ b o = refl

-- A principal that no grant is stored for is refused every question, on every resource; so in a
-- valid Grants is the empty principal.
pub authorize_default :
    (g : Grants) (p : Bytes) (a : Action) (resource : Bytes)
    → find p g.grants ≡ none
    → authorize g p a resource ≡ false
unfolding authorize allows scopes_of
authorize_default g p a resource h =
    let (k, b, o) = split resource in rw (h, scopes_of) (answer_nothing_held g a k b o)

authorize_mono :
    (g h : Grants) (v : IsValid g) (p : Bytes) (a : Action) (resource : Bytes)
    → h.protected ≡ g.protected
    → ((s : Scope) (q : ℕ) → 1 ≤ q → q ≤ 6 → holds g p s q ≡ true → holds h p s q ≡ true)
    → authorize g p a resource ≡ true
    → authorize h p a resource ≡ true
unfolding authorize allows is_protected
authorize_mono g h v p a resource same more yes_g =
    let (k, b, o) = split resource in
    answer_protected h g (scopes_of p h) a k b o (rw (same, is_protected) refl)
    ∙ answer_mono g (scopes_of p g) (scopes_of p h) (v.unique p) more a k b o yes_g

module _ (valid_path : Bytes → Bool) (principal : Bytes) (s : Scope) (perms : List ℕ) (g : Grants)
    (v : IsValid g) where
  protected-grant : (grant valid_path principal s perms g).1.protected ≡ g.protected
  unfolding grant
  protected-grant = ground arith

  protected-revoke : (revoke valid_path principal s perms g).1.protected ≡ g.protected
  unfolding revoke
  protected-revoke = ground arith

  -- A Grant that is accepted takes no answer away: in a valid Grants, whatever anyone was allowed
  -- stays allowed.
  pub authorize-grant_mono :
      (grant valid_path principal s perms g).0 ≡ none
      → (p : Bytes) (a : Action) (resource : Bytes) → authorize g p a resource ≡ true
      → authorize (grant valid_path principal s perms g).1 p a resource ≡ true
  authorize-grant_mono ok p a resource =
      authorize_mono g (grant valid_path principal s perms g).1 v p a resource protected-grant
        λ t q low high h.
          ground (arith, holds-grant valid_path principal s perms g ok p t q low high)

  -- A Revoke that is accepted allows nothing new: in a valid Grants, whatever anyone is allowed
  -- after it was allowed before.
  pub authorize-revoke_mono :
      (revoke valid_path principal s perms g).0 ≡ none
      → (p : Bytes) (a : Action) (resource : Bytes)
      → authorize (revoke valid_path principal s perms g).1 p a resource ≡ true
      → authorize g p a resource ≡ true
  authorize-revoke_mono ok p a resource =
      authorize_mono (revoke valid_path principal s perms g).1 g
        (revoke-IsValid valid_path principal s perms g v) p a resource (sym protected-revoke)
        λ t q low high h.
          ground (arith, holds-revoke valid_path principal s perms g ok p t q low high)

-- A Write on an object is what was granted on the database, on its branch, or on that object, and
-- so is a Read; a protected branch does not enter into it. The names are not empty, and the branch's
-- has no colon.
pub authorize-path :
    (g : Grants) (p b o : Bytes)
    → b ≢ []
    → o ≢ []
    → has_colon b ≡ false
    → (authorize g p write (path_resource b o) ≡ (
        holds g p database_scope perm_write
        || holds g p (branch_scope b) perm_write
        || holds g p (object_scope b o) perm_write))
      × (authorize g p read (path_resource b o) ≡ (
          holds g p database_scope perm_read
          || holds g p (branch_scope b) perm_read
          || holds g p (object_scope b o) perm_read))
unfolding authorize allows answer
authorize-path g p b o n k c = (
  rw (split-path_resource b o n k c) (ground arith),
  rw (split-path_resource b o n k c) (ground arith),
)

-- Write is held on the database, on the branch, or on some object of it.
abbrev pub WritesIn : Scopes → Bytes → Type 0
WritesIn m b =
    (held_at m database_scope perm_write ≡ true)
    ⊎ (held_at m (branch_scope b) perm_write ≡ true)
    ⊎ ((o : Bytes) × (o ≢ []) × (held_at m (object_scope b o) perm_write ≡ true))

writes_in :
    (m : Scopes) (b : Bytes)
    → IsUnique m
    → (on_branch m b perm_write || on_an_object m b perm_write) ≡ true
    → WritesIn m b
writes_in m b u h = elim (Bool-cases (on_an_object m b perm_write)) [
  | inl e ↦ inr (inr (on_an_object_held m b perm_write u e))
  | inr e ↦ ground arith
]

in_writes :
    (m : Scopes) (b : Bytes)
    → WritesIn m b
    → (on_branch m b perm_write || on_an_object m b perm_write) ≡ true
in_writes m b (inl h) = ground arith
in_writes m b (inr (inl h)) = ground arith
in_writes m b (inr (inr (o, n, h))) = ground (arith, held_on_an_object m b o perm_write n h)

-- A Write on a branch is allowed exactly when the branch is not protected and Write is granted on
-- the database, on the branch, or on some object of the branch. The Grants is valid and the
-- branch's name is not empty.
pub authorize-branch_write_iff :
    (g : Grants) (v : IsValid g) (p b : Bytes)
    → b ≢ []
    → (authorize g p write (branch_resource b) ≡ true)
      ↔ (is_protected b g ≡ false) × WritesIn (scopes_of p g) b
unfolding authorize allows answer
authorize-branch_write_iff g v p b n = rw (split-branch_resource b n) (
  λ h. (ground arith, writes_in (scopes_of p g) b (v.unique p) (ground arith)),
  λ (free, w). ground (arith, in_writes (scopes_of p g) b w),
)

is_protected-protect :
    (g : Grants) (b c : Bytes)
    → (protect b g).0 ≡ none
    → is_protected c (protect b g).1 ≡ (if b == c then true else is_protected c g)
unfolding protect is_protected
is_protected-protect g b c ok = ground (arith, find-put b c true g.protected)

grants-protect : (g : Grants) (b : Bytes) → (protect b g).1.grants ≡ g.grants
unfolding protect
grants-protect g b = ground arith

accepted-protect : (g : Grants) (b : Bytes) → b ≢ [] → has_colon b ≡ false → (protect b g).0 ≡ none
unfolding protect
accepted-protect g b n c = ground (arith, bytes_comparable.eq_iff b [])

answer-protect :
    (g : Grants) (m : Scopes) (b : Bytes) (a : Action) (k : Kind) (c o : Bytes)
    → (protect b g).0 ≡ none
    → (a ≡ write → k ≡ branch → c ≡ b → ⊥)
    → answer (protect b g).1 m a k c o ≡ answer g m a k c o
answer-protect g m b a k c o ok n = elim (Bool-cases (b == c)) [
  | inl e ↦
      answer_unprotected (protect b g).1 g m a k c o
        λ w r. n w r (sym ((bytes_comparable.eq_iff b c).0 e))
  | inr e ↦ answer_protected (protect b g).1 g m a k c o (is_protected-protect g b c ok ∙ rw e refl)
]

-- A Protect of a branch whose name is not empty and has no colon is accepted, and after it a Write on the branch is
-- refused whoever asks and whatever was granted; every question but a Write on it is answered as before.
pub authorize-protect :
    (g : Grants) (b : Bytes) (p : Bytes)
    → b ≢ []
    → has_colon b ≡ false
    → ((protect b g).0 ≡ none)
      × (authorize (protect b g).1 p write (branch_resource b) ≡ false)
      × ((a : Action) (resource : Bytes)
          → (a ≡ write → resource ≡ branch_resource b → ⊥)
          → authorize (protect b g).1 p a resource ≡ authorize g p a resource)
unfolding authorize allows answer scopes_of
authorize-protect g b p named plain = (
  accepted-protect g b named plain,
  rw (split-branch_resource b named) (
      ground (
        arith,
        is_protected-protect g b b (accepted-protect g b named plain),
        bytes_comparable.eq_iff b b,
      )),
  λ a resource n.
      let m : Scopes = scopes_of p g in
      let (k, c, o) = split resource in
      rw (grants-protect g b, scopes_of)
        (answer-protect g m b a k c o (accepted-protect g b named plain) λ w r e.
          n w (split_branch_sound resource b o (ap₂ (λ (k : Kind) (c : Bytes). (k, c, o)) r e))),
)
