-- ===== src/Grants/Resources.antt =====
-- engine/grants.go: `split` reads the resources that the core names, and nothing else.
use mathlib.Core.Path.{ap₂}
use snapshot_engine.Shared.{
  ◌≡◌, ◌≢◌, refl, ◌∙◌, false, none, some, [], ◌∷◌, ◌++◌, arith, Bytes, bytes_comparable, codes, inl,
  inr, Option-cases,
}
use snapshot_engine.Grants.Model.{branch, path, cut, has_colon, split_path, split}

abbrev pub branch_resource : Bytes → Bytes
branch_resource b = codes "branch:" ++ b

abbrev pub path_resource : Bytes → Bytes → Bytes
path_resource b p = codes "path:" ++ (b ++ (b':' ∷ p))

-- `cut` splits at the first colon.
cut-append : (k r : Bytes) → has_colon k ≡ false → cut (k ++ (b':' ∷ r)) ≡ some (k, r)
unfolding cut
cut-append [] r h = refl
cut-append (c ∷ k) r h = ground (arith, cut-append k r)

cut_sound : (s k r : Bytes) → cut s ≡ some (k, r) → s ≡ k ++ (b':' ∷ r)
unfolding cut
cut_sound [] k r h = cc
cut_sound (c ∷ s) [] r h = ground arith
cut_sound (c ∷ s) (d ∷ k) r h = ground (arith, cut_sound s k r)

pub split-branch_resource : (b : Bytes) → b ≢ [] → split (branch_resource b) ≡ (branch, b, [])
unfolding split cut
split-branch_resource [] h = absurd (h refl)
split-branch_resource (c ∷ b) h = refl

pub split-path_resource :
    (b p : Bytes) → b ≢ [] → p ≢ [] → has_colon b ≡ false → split (path_resource b p) ≡ (path, b, p)
unfolding split
split-path_resource [] p h k n = absurd (h refl)
split-path_resource (c ∷ b) [] h k n = absurd (k refl)
split-path_resource (c ∷ b) (d ∷ p) h k n =
    rw (cut-append (codes "path") ((c ∷ b) ++ (b':' ∷ (d ∷ p))) refl)
      (rw (cut-append (c ∷ b) (d ∷ p) n, split_path))

not_branch : (resource b p : Bytes) → cut resource ≡ none → split resource ≢ (branch, b, p)
unfolding split
not_branch resource b p e h = ground arith

branch_parts :
    (resource b p k r : Bytes)
    → cut resource ≡ some (k, r)
    → split resource ≡ (branch, b, p)
    → (k ≡ codes "branch") × (r ≡ b)
unfolding split
branch_parts resource b p k r e h = (
  ground (arith, bytes_comparable.eq_iff k (codes "branch")),
  ground (arith, bytes_comparable.eq_iff k (codes "branch")),
)

-- A resource that reads as a branch's question is that branch's.
pub split_branch_sound :
    (resource b p : Bytes) → split resource ≡ (branch, b, p) → resource ≡ branch_resource b
split_branch_sound resource b p h = elim (Option-cases (cut resource)) [
  | inl e ↦ absurd (not_branch resource b p e h)
  | inr ((k, r), e) ↦
      let parts = branch_parts resource b p k r e h in
      cut_sound resource k r e ∙ ap₂ (λ k r. k ++ (b':' ∷ r)) parts.0 parts.1
]
