-- ===== src/Table/Merged.antt =====
-- model/table/schemamerge.go: what a clean merge of two schemas gives.
use snapshot_engine.Shared.{
  ℕ, ◌≡◌, refl, ap, sym, ◌∙◌, Bool, true, false, not, ◌||◌, inl, inr, none, some, List, [], ◌∷◌,
  Bytes, String, list_eq, list_eq_iff, Comparable, any, any-append, arith, Bool-cases, Option-cases,
  nat_comparable, bytes_comparable, ◌==◌,
}
use mathlib.Core.Path.{subst}
use snapshot_engine.Merge.Scalar.{scalar}
use snapshot_engine.Table.Schema.{
  Column, Schema, column, validate, column_eq, column_eq_iff, column_comparable, bool_comparable,
}
use snapshot_engine.Table.SchemaMerge.{
  SchemaConflict, merge_column, keep_column, keep_columns, merged_parts, accept_merged,
  merge_schemas,
}

accept_merged_valid :
    (blame : List String → String) (parts : Schema × List SchemaConflict) (s : Schema)
    → accept_merged blame parts ≡ inr s
    → (parts.0 ≡ s) × (validate s ≡ none)
accept_merged_valid blame (p, (c ∷ cs)) s h = cc
accept_merged_valid blame (p, []) s h = elim (Option-cases (validate p)) [
  | inr (e, v) ↦ ground (arith, v, h)
  | inl v ↦ let same : p ≡ s = ground (arith, v, h) in (same, rw⁻¹ same v)
]

merged_parts_key :
    (blame : List String → String) (base ours theirs : Schema)
    → (merged_parts blame base ours theirs).0.primary_key ≡ base.primary_key
unfolding merged_parts
merged_parts_key blame base ours theirs = refl

-- A clean merge of schemas that validate gives one that does, with the base's primary key.
pub merge_schemas-validate :
    (blame : List String → String) (base ours theirs : Schema)
    (base_cat ours_cat theirs_cat : Bytes) (s : Schema)
    → validate ours ≡ none
    → validate theirs ≡ none
    → merge_schemas blame base ours theirs base_cat ours_cat theirs_cat ≡ inr s
    → (validate s ≡ none) × (s.primary_key ≡ base.primary_key)
unfolding merge_schemas
merge_schemas-validate blame base ours theirs bc oc tc s v w h =
    elim (Bool-cases (
      not (list_eq ours.primary_key base.primary_key)
      || not (list_eq theirs.primary_key base.primary_key))) [
        | inl k ↦ ground (arith, k, h)
        | inr k ↦
            let ko : ours.primary_key ≡ base.primary_key =
              (list_eq_iff ours.primary_key base.primary_key).0 (ground (arith, k)) in
            let kt : theirs.primary_key ≡ base.primary_key =
              (list_eq_iff theirs.primary_key base.primary_key).0 (ground (arith, k)) in
            let from_ours : ours ≡ s → (validate s ≡ none) × (s.primary_key ≡ base.primary_key) =
              λ e. rw⁻¹ e (v, ko) in
            let from_theirs : theirs ≡ s
                → (validate s ≡ none) × (s.primary_key ≡ base.primary_key) =
              λ e. rw⁻¹ e (w, kt) in
            elim (Bool-cases (oc == tc)) [
              | inl a ↦ from_ours (ground (arith, k, a, h))
              | inr a ↦ elim (Bool-cases (oc == bc)) [
                | inl b ↦ from_theirs (ground (arith, k, a, b, h))
                | inr b ↦ elim (Bool-cases (tc == bc)) [
                  | inl c ↦ from_ours (ground (arith, k, a, b, c, h))
                  | inr c ↦
                      let (same, valid) =
                        accept_merged_valid blame (merged_parts blame base ours theirs) s
                          (sym (rw k (rw a (rw b (rw c refl)))) ∙ h) in
                      (
                        valid,
                        ap (λ x. x.primary_key) (sym same)
                            ∙ merged_parts_key blame base ours theirs,
                      )
                ]
              ]
            ]
      ]

scalar_ours {ℓ} :
    {T : Type ℓ} ⦃c : Comparable T⦄ (b o : T)
    → scalar b o b ≡ record { value = o; conflicts = []; flagged = [] }
unfolding scalar
scalar_ours ⦃c⦄ b o = ground (arith, c.eq_iff o b, c.eq_iff b b)

-- A column that theirs left as it was is ours.
merge_column_ours :
    (blame : List String → String) (b o : Column) → o.tag ≡ b.tag → merge_column blame b o b ≡ inr o
unfolding merge_column
merge_column_ours blame b o t = rw (scalar_ours b.name o.name) (
    rw (scalar_ours b.kind o.kind)
      (rw (scalar_ours b.nullable o.nullable) (rw (scalar_ours b.max_len o.max_len) (rw⁻¹ t refl))))

column_tag : (cs : List Column) (t : ℕ) (c : Column) → column cs t ≡ some c → c.tag ≡ t
unfolding column
column_tag [] t c h = cc
column_tag (d ∷ cs) t c h = ground (arith, h, column_tag cs t c)

abbrev pub has_column : List Column → Column → Bool
has_column cs c = any (λ d. column_eq d c) cs

column-has_column :
    (cs : List Column) (t : ℕ) (c : Column) → column cs t ≡ some c → has_column cs c ≡ true
unfolding column
column-has_column [] t c h = cc
column-has_column (d ∷ cs) t c h = ground (arith, h, column-has_column cs t c, column_eq_iff d c)

first_kept :
    (blame : List String → String) (ours theirs : Schema) (b o : Column)
    → column ours.columns b.tag ≡ some o
    → column theirs.columns b.tag ≡ some b
    → (keep_column blame b (column ours.columns b.tag) (column theirs.columns b.tag)).kept ≡ o ∷ []
first_kept blame ours theirs b o f g =
    rw f (
      rw g (rw (merge_column_ours blame b o (column_tag ours.columns b.tag o f), keep_column) refl))

keep_columns_ours :
    (blame : List String → String) (ours theirs : Schema) (bs : List Column) (b o : Column)
    → has_column bs b ≡ true
    → column ours.columns b.tag ≡ some o
    → column theirs.columns b.tag ≡ some b
    → has_column (keep_columns blame ours theirs bs).kept o ≡ true
unfolding keep_columns
keep_columns_ours blame ours theirs [] b o m f g = cc
keep_columns_ours blame ours theirs (d ∷ bs) b o m f g =
    let first = keep_column blame d (column ours.columns d.tag) (column theirs.columns d.tag) in
    let rest = keep_columns blame ours theirs bs in
    let both = any-append (λ x. column_eq x o) first.kept rest.kept in
    elim (Bool-cases (column_eq d b)) [
      | inl e ↦
          let same : d ≡ b = (column_eq_iff d b).0 e in
          let here =
            subst
              (λ x.
                (keep_column blame x (column ours.columns x.tag) (column theirs.columns x.tag)).kept
                ≡ o ∷ [])
              (sym same) (first_kept blame ours theirs b o f g) in
          rw here (rw ((column_eq_iff o o).1 refl) refl)
      | inr e ↦
          ground
            (arith, both, keep_columns_ours blame ours theirs bs b o (ground (arith, m, e)) f g)
    ]

merged_parts_kept :
    (blame : List String → String) (base ours theirs : Schema) (o : Column)
    → has_column (keep_columns blame ours theirs base.columns).kept o ≡ true
    → has_column (merged_parts blame base ours theirs).0.columns o ≡ true
unfolding merged_parts
merged_parts_kept blame base ours theirs o h =
    any-append (λ x. column_eq x o) (keep_columns blame ours theirs base.columns).kept _ ∙ rw h refl

-- In a clean merge where ours has another catalog record than the base, a column of the base that theirs left as it was is as ours has it.
pub merge_schemas-has_column :
    (blame : List String → String) (base ours theirs : Schema)
    (base_cat ours_cat theirs_cat : Bytes) (s : Schema) (b o : Column)
    → (ours_cat == base_cat) ≡ false
    → has_column base.columns b ≡ true
    → column ours.columns b.tag ≡ some o
    → column theirs.columns b.tag ≡ some b
    → merge_schemas blame base ours theirs base_cat ours_cat theirs_cat ≡ inr s
    → has_column s.columns o ≡ true
unfolding merge_schemas
merge_schemas-has_column blame base ours theirs bc oc tc s b o changed m f g h =
    let from_ours : ours ≡ s → has_column s.columns o ≡ true =
      λ e. rw⁻¹ e (column-has_column ours.columns b.tag o f) in
    elim (Bool-cases (
      not (list_eq ours.primary_key base.primary_key)
      || not (list_eq theirs.primary_key base.primary_key))) [
        | inl k ↦ ground (arith, k, h)
        | inr k ↦ elim (Bool-cases (oc == tc)) [
          | inl a ↦ from_ours (ground (arith, k, a, h))
          | inr a ↦ elim (Bool-cases (tc == bc)) [
            | inl c ↦ from_ours (ground (arith, k, a, changed, c, h))
            | inr c ↦
                let (same, valid) =
                  accept_merged_valid blame (merged_parts blame base ours theirs) s
                    (sym (rw k (rw a (rw changed (rw c refl)))) ∙ h) in
                rw⁻¹ same (
                  merged_parts_kept blame base ours theirs o
                    (keep_columns_ours blame ours theirs base.columns b o m f g))
          ]
        ]
      ]
