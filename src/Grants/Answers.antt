-- ===== src/Grants/Answers.antt =====
-- engine/grants.go: an answer rests on the permissions held at three scopes, and grows with them.
use snapshot_engine.Shared.{
  ℕ, ◌≤◌, ◌≡◌, ◌≢◌, ap, true, not, ◌&&◌, ◌||◌, some, [], arith, Bytes, ◌==◌, bytes_comparable, inl,
  inr, find, IsUnique, find_of_any, any_of_find, Option-cases, Bool-cases,
}
use snapshot_engine.Grants.Bits.{has}
use snapshot_engine.Grants.Model.{
  Action, read, write, manage, admin, commit, merge, perm_read, perm_write, perm_commit, perm_merge,
  perm_branch_admin, perm_admin, Scope, Scopes, scope_comparable, database_scope, branch_scope,
  object_scope, Grants, Kind, repo, tag, branch, path, perms_at, is_protected, anywhere,
  on_an_object, held_at, on_branch, answer,
}
use snapshot_engine.Grants.Effects.{unstored}

-- A permission that is held is stored.
pub held_stored :
    (m : Scopes) (s : Scope) (p : ℕ)
    → held_at m s p ≡ true
    → (ps : ℕ) × (find s m ≡ some ps) × (has ps p ≡ true)
unfolding perms_at has
held_stored m s p h = elim (Option-cases (find s m)) [
  | inl e ↦ absurd (ground (arith, e, unstored s p))
  | inr (ps, e) ↦ (ps, e, ground (arith, e))
]

stored_held :
    (m : Scopes) (s : Scope) (p ps : ℕ)
    → find s m ≡ some ps
    → has ps p ≡ true
    → held_at m s p ≡ true
unfolding perms_at
stored_held m s p ps e h = ground arith

anywhere_held :
    (m : Scopes) (p : ℕ) → IsUnique m → anywhere m p ≡ true → (s : Scope) × (held_at m s p ≡ true)
unfolding anywhere
anywhere_held m p u h =
    let (s, ps, e, fits) = find_of_any (λ e. has e.1 p) m u h in (s, stored_held m s p ps e fits)

held_anywhere : (m : Scopes) (s : Scope) (p : ℕ) → held_at m s p ≡ true → anywhere m p ≡ true
unfolding anywhere
held_anywhere m s p h =
    let (ps, e, fits) = held_stored m s p h in any_of_find (λ e. has e.1 p) m s ps e fits

-- The test that `onAnObject` makes of an entry.
module _ (b : Bytes) (p : ℕ) (s : Scope) (ps : ℕ) where
  entry_parts :
      (s.branch == b && not (s.object == []) && has ps p) ≡ true
      → (s.object ≢ []) × (s ≡ object_scope b s.object) × (has ps p ≡ true)
  entry_parts h =
      let e : s.branch ≡ b = (bytes_comparable.eq_iff s.branch b).0 (ground arith) in
      (
        ground (arith, bytes_comparable.eq_iff s.object []),
        ap (λ b. object_scope b s.object) e,
        ground arith,
      )

pub on_an_object_held :
    (m : Scopes) (b : Bytes) (p : ℕ)
    → IsUnique m
    → on_an_object m b p ≡ true
    → (o : Bytes) × (o ≢ []) × (held_at m (object_scope b o) p ≡ true)
unfolding on_an_object
on_an_object_held m b p u h =
    let (s, ps, e, fits) =
      find_of_any (λ e. e.0.branch == b && not (e.0.object == []) && has e.1 p) m u h in
    let (n, same, fits') = entry_parts b p s ps fits in
    (s.object, n, stored_held m (object_scope b s.object) p ps (rw (← same) e) fits')

pub held_on_an_object :
    (m : Scopes) (b o : Bytes) (p : ℕ)
    → o ≢ []
    → held_at m (object_scope b o) p ≡ true
    → on_an_object m b p ≡ true
unfolding on_an_object
held_on_an_object m b o p n h =
    let (ps, e, fits) = held_stored m (object_scope b o) p h in
    any_of_find (λ e. e.0.branch == b && not (e.0.object == []) && has e.1 p) m (object_scope b o)
      ps e (ground (arith, bytes_comparable.eq_iff b b, bytes_comparable.eq_iff o []))

-- Where every permission that m holds is held in n too, n answers yes wherever m does.
module _ (g : Grants) (m n : Scopes) (um : IsUnique m)
    (more : (s : Scope) (p : ℕ) → 1 ≤ p → p ≤ 6 → held_at m s p ≡ true → held_at n s p ≡ true) where
  anywhere_mono : anywhere m perm_read ≡ true → anywhere n perm_read ≡ true
  anywhere_mono h =
      let (s, k) = anywhere_held m perm_read um h in
      held_anywhere n s perm_read (more s perm_read (omega arith) (omega arith) k)

  on_branch_mono :
      (b : Bytes) (p : ℕ) → 1 ≤ p → p ≤ 6 → on_branch m b p ≡ true → on_branch n b p ≡ true
  on_branch_mono b p low high h =
      ground (arith, more database_scope p low high, more (branch_scope b) p low high)

  on_an_object_mono :
      (b : Bytes) (p : ℕ) → 1 ≤ p → p ≤ 6 → on_an_object m b p ≡ true → on_an_object n b p ≡ true
  on_an_object_mono b p low high h =
      let (o, k, held) = on_an_object_held m b p um h in
      held_on_an_object n b o p k (more (object_scope b o) p low high held)

  some_object_mono :
      (b : Bytes) (p : ℕ)
      → 1 ≤ p
      → p ≤ 6
      → (on_branch m b p || on_an_object m b p) ≡ true
      → (on_branch n b p || on_an_object n b p) ≡ true
  some_object_mono b p low high h = elim (Bool-cases (on_branch m b p)) [
    | inl e ↦ ground (arith, on_branch_mono b p low high e)
    | inr e ↦ ground (arith, on_an_object_mono b p low high (rw e at h))
  ]

  path_mono :
      (b o : Bytes) (p : ℕ)
      → 1 ≤ p
      → p ≤ 6
      → (on_branch m b p || held_at m (object_scope b o) p) ≡ true
      → (on_branch n b p || held_at n (object_scope b o) p) ≡ true
  path_mono b o p low high h = ground (
    arith,
    more database_scope p low high,
    more (branch_scope b) p low high,
    more (object_scope b o) p low high,
  )

  pub answer_mono :
      (a : Action) (k : Kind) (b o : Bytes) → answer g m a k b o ≡ true → answer g n a k b o ≡ true
  unfolding answer
  answer_mono read repo b o h = anywhere_mono h
  answer_mono admin repo b o h = more database_scope perm_admin (omega arith) (omega arith) h
  answer_mono read tag b o h = anywhere_mono h
  answer_mono manage tag b o h = more database_scope perm_branch_admin (omega arith) (omega arith) h
  answer_mono read branch b o h = some_object_mono b perm_read (omega arith) (omega arith) h
  answer_mono write branch b o h =
      let k = some_object_mono b perm_write (omega arith) (omega arith) in
      elim (Bool-cases (is_protected b g)) [
        | inl e ↦ absurd (ground (arith, e))
        | inr e ↦ rw e (k (rw e at h))
      ]
  answer_mono commit branch b o h = on_branch_mono b perm_commit (omega arith) (omega arith) h
  answer_mono merge branch b o h = on_branch_mono b perm_merge (omega arith) (omega arith) h
  answer_mono manage branch b o h = on_branch_mono b perm_branch_admin (omega arith) (omega arith) h
  answer_mono write path b o h = path_mono b o perm_write (omega arith) (omega arith) h
  answer_mono read path b o h = path_mono b o perm_read (omega arith) (omega arith) h
  answer_mono _ _ b o h = cc
