-- ===== src/Grants/Model.antt =====
-- engine/grants.go: the types, and every method of `Grants`.
use snapshot_engine.Shared.{
  ℕ, Bool, true, false, not, ◌&&◌, ◌||◌, Option, none, some, List, [], ◌∷◌, ltb, nat_beq,
  if◌then◌else◌, any, Bytes, Comparable, ◌==◌, codes, find, put, remove, ◌≡◌, ◌↔◌, arith,
  bytes_comparable,
}
use snapshot_engine.Grants.Bits.{has, set_bit, clear_bit}

-- The core's actions; `other` is any that the engine does not name.
pub data Action : Type 0 where
  read write manage admin commit merge : Action
  other : ℕ → Action

abbrev pub perm_read : ℕ
perm_read = 1

abbrev pub perm_write : ℕ
perm_write = 2

abbrev pub perm_commit : ℕ
perm_commit = 3

abbrev pub perm_merge : ℕ
perm_merge = 4

abbrev pub perm_branch_admin : ℕ
perm_branch_admin = 5

abbrev pub perm_admin : ℕ
perm_admin = 6

-- Where a grant applies; an empty name is an empty list.
pub record Scope : Type 0 where
  pub branch : Bytes
  pub object : Bytes

abbrev pub database_scope : Scope
database_scope = record { branch = []; object = [] }

abbrev pub branch_scope : Bytes → Scope
branch_scope b = record { branch = b; object = [] }

abbrev pub object_scope : Bytes → Bytes → Scope
object_scope b p = record { branch = b; object = p }

unfoldable pub scope_eq : Scope → Scope → Bool
scope_eq s t = s.branch == t.branch && s.object == t.object

pub scope_eq_iff : (s t : Scope) → (scope_eq s t ≡ true) ↔ (s ≡ t)
unfolding scope_eq
scope_eq_iff s t =
    ground
      (arith, bytes_comparable.eq_iff s.branch t.branch, bytes_comparable.eq_iff s.object t.object)

instance abbrev pub scope_comparable : Comparable Scope
scope_comparable = record { eq = scope_eq; eq_iff = scope_eq_iff }

abbrev pub Scopes : Type 0
Scopes = List (Scope × ℕ)

-- `protected` holds true under every branch that is protected.
pub record Grants : Type 0 where
  pub grants : List (Bytes × Scopes)
  pub protected : List (Bytes × Bool)

-- What Grant, Revoke and Protect refuse; every one wraps ErrInvalid.
pub data Refusal : Type 0 where
  no_principal no_permission scope_without_branch branch_with_colon bad_path : Refusal
  unknown_permission : ℕ → Refusal
  object_takes_read_write admin_is_database : Refusal
  no_branch_to_protect : Refusal

-- strings.Contains(s, ":")
abbrev pub has_colon : Bytes → Bool
has_colon = any (nat_beq b':')

-- strings.Cut(s, ":")
unfoldable pub cut : Bytes → Option (Bytes × Bytes)
cut [] = none
cut (c ∷ s) =
    let rest = cut s in
    if nat_beq c b':'
    then some ([], s)
    else elim rest [ none ↦ none | some (k, r) ↦ some (c ∷ k, r) ]

-- The permissions at a scope; a missing key reads as the zero permSet.
unfoldable pub perms_at : Scope → Scopes → ℕ
perms_at s m = elim (find s m) [ none ↦ 0 | some ps ↦ ps ]

-- g.grants[principal], the nil map where it is missing.
unfoldable pub scopes_of : Bytes → Grants → Scopes
scopes_of principal g = elim (find principal g.grants) [ none ↦ [] | some m ↦ m ]

unfoldable pub is_protected : Bytes → Grants → Bool
is_protected b g = elim (find b g.protected) [ none ↦ false | some x ↦ x ]

abbrev pub zero_grants : Grants
zero_grants = record { grants = []; protected = [] }

module _ (valid_path : Bytes → Bool) where
  unfoldable pub validate : Scope → Option Refusal
  validate s =
      if s.branch == [] && not (s.object == [])
      then some scope_without_branch
      else if has_colon s.branch
      then some branch_with_colon
      else if not (s.object == []) && not (valid_path s.object)
      then some bad_path
      else none

unfoldable pub check_perm : Scope → ℕ → Option Refusal
check_perm s p =
    if ltb p perm_read || ltb perm_admin p
    then some (unknown_permission p)
    else if not (s.object == []) && (not (nat_beq p perm_read) && not (nat_beq p perm_write))
    then some object_takes_read_write
    else if nat_beq p perm_admin && not (s == database_scope)
    then some admin_is_database
    else none

-- The loop of checkGrant: the first permission refused ends it.
unfoldable pub check_perms : Scope → List ℕ → Option Refusal
check_perms s [] = none
check_perms s (p ∷ ps) =
    let rest = check_perms s ps in elim (check_perm s p) [ none ↦ rest | some e ↦ some e ]

module _ (valid_path : Bytes → Bool) where
  unfoldable pub check_grant : Bytes → Scope → List ℕ → Option Refusal
  check_grant principal s perms =
      if principal == []
      then some no_principal
      else if perms == []
      then some no_permission
      else elim (validate valid_path s) [ some e ↦ some e | none ↦ check_perms s perms ]

-- The loops of Grant and Revoke over the permissions.
unfoldable pub set_perms : Scope → List ℕ → Scopes → Scopes
set_perms s [] m = m
set_perms s (p ∷ ps) m = set_perms s ps (put s (set_bit (perms_at s m) p) m)

unfoldable pub clear_perms : Scope → List ℕ → Scopes → Scopes
clear_perms s [] m = m
clear_perms s (p ∷ ps) m = clear_perms s ps (put s (clear_bit (perms_at s m) p) m)

-- delete(scopes, s) where nothing is left of it
unfoldable pub drop_empty : Scope → Scopes → Scopes
drop_empty s m = if nat_beq (perms_at s m) 0 then remove s m else m

module _ (valid_path : Bytes → Bool) where
  unfoldable pub grant : Bytes → Scope → List ℕ → Grants → Option Refusal × Grants
  grant principal s perms g = elim (check_grant valid_path principal s perms) [
    | some e ↦ (some e, g)
    | none ↦ (
      none,
      record g { grants = put principal (set_perms s perms (scopes_of principal g)) g.grants },
    )
  ]

  unfoldable pub revoke : Bytes → Scope → List ℕ → Grants → Option Refusal × Grants
  revoke principal s perms g = elim (check_grant valid_path principal s perms) [
    | some e ↦ (some e, g)
    | none ↦ elim (find principal g.grants) [
      | none ↦ (none, g)
      | some m ↦ (
        none,
        record g { grants = put principal (drop_empty s (clear_perms s perms m)) g.grants },
      )
    ]
  ]

unfoldable pub protect : Bytes → Grants → Option Refusal × Grants
protect b g =
    if b == [] || has_colon b
    then (some no_branch_to_protect, g)
    else (none, record g { protected = put b true g.protected })

unfoldable pub unprotect : Bytes → Grants → Grants
unprotect b g = record g { protected = remove b g.protected }

-- What a resource names, as `split` reads it.
pub data Kind : Type 0 where
  repo tag branch path nothing : Kind

unfoldable pub split_path : Bytes → Kind × Bytes × Bytes
split_path rest = elim (cut rest) [
  | none ↦ (nothing, [], [])
  | some (b, p) ↦ if b == [] || p == [] then (nothing, [], []) else (path, b, p)
]

unfoldable pub split : Bytes → Kind × Bytes × Bytes
unfolding split_path
split resource = if resource == codes "repo" then (repo, [], []) else elim (cut resource) [
  | none ↦ (nothing, [], [])
  | some (k, rest) ↦
      if rest == []
      then (nothing, [], [])
      else if k == codes "tag"
      then (tag, [], [])
      else if k == codes "branch"
      then (branch, rest, [])
      else if k == codes "path"
      then split_path rest
      else (nothing, [], [])
]

unfoldable pub anywhere : Scopes → ℕ → Bool
anywhere m p = any (λ e. has e.1 p) m

unfoldable pub on_an_object : Scopes → Bytes → ℕ → Bool
on_an_object m b p = any (λ e. e.0.branch == b && not (e.0.object == []) && has e.1 p) m

-- The permission p at the scope s.
abbrev pub held_at : Scopes → Scope → ℕ → Bool
held_at m s p = has (perms_at s m) p

abbrev pub on_branch : Scopes → Bytes → ℕ → Bool
on_branch m b p = held_at m database_scope p || held_at m (branch_scope b) p

-- The answer to one question, by the kind of the resource and the action.
unfoldable pub answer : Grants → Scopes → Action → Kind → Bytes → Bytes → Bool
answer g m read repo b p = anywhere m perm_read
answer g m admin repo b p = held_at m database_scope perm_admin
answer g m read tag b p = anywhere m perm_read
answer g m manage tag b p = held_at m database_scope perm_branch_admin
answer g m read branch b p = on_branch m b perm_read || on_an_object m b perm_read
answer g m write branch b p =
    not (is_protected b g) && (on_branch m b perm_write || on_an_object m b perm_write)
answer g m commit branch b p = on_branch m b perm_commit
answer g m merge branch b p = on_branch m b perm_merge
answer g m manage branch b p = on_branch m b perm_branch_admin
answer g m write path b p = on_branch m b perm_write || held_at m (object_scope b p) perm_write
answer g m read path b p = on_branch m b perm_read || held_at m (object_scope b p) perm_read
answer g m _ _ b p = false

unfoldable pub allows : Grants → Scopes → Action → Bytes → Bool
allows g m a resource = let (kind, b, p) = split resource in answer g m a kind b p

-- true is nil, false is auth.ErrDenied
unfoldable pub authorize : Grants → Bytes → Action → Bytes → Bool
authorize g principal a resource = allows g (scopes_of principal g) a resource
