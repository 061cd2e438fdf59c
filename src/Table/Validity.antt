-- ===== src/Table/Validity.antt =====
-- model/table/table.go: what a schema that `Validate` takes has, as the reader of a catalog record needs it.
use snapshot_engine.Shared.{
  ℕ, ◌+◌, ◌≤◌, ◌<◌, ◌≡◌, false, inl, inr, none, some, List, [], ◌∷◌, nat_beq, if◌then◌else◌, length,
  Bytes, arith, Bool-cases, Option-cases,
}
use snapshot_engine.Table.Schema.{
  Column, Index, Schema, column, has_tag, check_column, check_columns, check_key,
  check_index_columns, check_indexes, validate, max_columns, max_indexes, max_name_len,
}

-- The columns whose tags were not seen.
abbrev unseen : List Column → List ℕ → ℕ
unseen [] seen = 0
unseen (c ∷ cs) seen = (if has_tag seen c.tag then 0 else 1) + unseen cs seen

unseen-length : (cs : List Column) (seen : List ℕ) → unseen cs seen ≤ length cs
unseen-length [] seen = omega arith
unseen-length (c ∷ cs) seen = ground (arith, unseen-length cs seen)

unseen-more : (cs : List Column) (t : ℕ) (seen : List ℕ) → unseen cs (t ∷ seen) ≤ unseen cs seen
unseen-more [] t seen = omega arith
unseen-more (c ∷ cs) t seen = ground (arith, unseen-more cs t seen)

unseen-found :
    (cs : List Column) (t : ℕ) (seen : List ℕ) (d : Column)
    → column cs t ≡ some d
    → has_tag seen t ≡ false
    → unseen cs (t ∷ seen) < unseen cs seen
unfolding column
unseen-found [] t seen d h k = cc
unseen-found (c ∷ cs) t seen d h k = elim (Bool-cases (nat_beq c.tag t)) [
  | inl e ↦
      let same : c.tag ≡ t = ground arith in
      let here : has_tag seen c.tag ≡ false = rw same k in ground (arith, unseen-more cs t seen)
  | inr e ↦ ground (arith, unseen-found cs t seen d (ground arith) k)
]

-- Distinct columns of a schema are no more than its columns.
key_count :
    (cs : List Column) (seen ts : List ℕ) → check_key cs seen ts ≡ none → length ts ≤ unseen cs seen
unfolding check_key
key_count cs seen [] h = omega arith
key_count cs seen (t ∷ ts) h = elim (Option-cases (column cs t)) [
  | inl e ↦ ground (arith, e)
  | inr (d, e) ↦ ground (arith, e, key_count cs (t ∷ seen) ts, unseen-found cs t seen d e)
]

index_count :
    (cs : List Column) (seen ts : List ℕ)
    → check_index_columns cs seen ts ≡ none
    → length ts ≤ unseen cs seen
unfolding check_index_columns
index_count cs seen [] h = omega arith
index_count cs seen (t ∷ ts) h = elim (Option-cases (column cs t)) [
  | inl e ↦ ground (arith, e)
  | inr (d, e) ↦ ground (arith, e, index_count cs (t ∷ seen) ts, unseen-found cs t seen d e)
]

abbrev pub NamesFit : List Column → Type 0
NamesFit [] = Unit
NamesFit (c ∷ cs) = (length c.name ≤ max_name_len) × NamesFit cs

names_fit :
    (tags : List ℕ) (names : List Bytes) (cs : List Column)
    → check_columns tags names cs ≡ none
    → NamesFit cs
unfolding check_columns check_column
names_fit tags names [] h = tt
names_fit tags names (c ∷ cs) h =
    (ground arith, names_fit (c.tag ∷ tags) (c.name ∷ names) cs (ground arith))

abbrev pub IndexesFit : List Index → Type 0
IndexesFit [] = Unit
IndexesFit (ix ∷ ixs) = (length ix.columns ≤ max_columns) × IndexesFit ixs

indexes_fit :
    (cs : List Column) (seen : List ℕ) (ixs : List Index)
    → length cs ≤ max_columns
    → check_indexes cs seen ixs ≡ none
    → IndexesFit ixs
unfolding check_indexes
indexes_fit cs seen [] b h = tt
indexes_fit cs seen (ix ∷ ixs) b h = (
  ground (arith, index_count cs [] ix.columns, unseen-length cs []),
  indexes_fit cs (ix.tag ∷ seen) ixs b (ground arith),
)

pub record Fits (s : Schema) : Type 0 where
  pub some_column : 0 < length s.columns
  pub columns_fit : length s.columns ≤ max_columns
  pub column_names : NamesFit s.columns
  pub key_fits : length s.primary_key ≤ max_columns
  pub count_fits : length s.indexes ≤ max_indexes
  pub index_columns : IndexesFit s.indexes

-- A schema that validates keeps to the limits that the reader of its record has.
pub validate-Fits : (s : Schema) → validate s ≡ none → Fits s
unfolding validate
validate-Fits s h =
    let nonempty : 0 < length s.columns = ground arith in
    let few : length s.columns ≤ max_columns = ground arith in
    let names : check_columns [] [] s.columns ≡ none = ground arith in
    let key : check_key s.columns [] s.primary_key ≡ none = ground arith in
    let count : length s.indexes ≤ max_indexes = ground arith in
    let ixs : check_indexes s.columns [] s.indexes ≡ none = ground arith in
    record {
      some_column = nonempty;
      columns_fit = few;
      column_names = names_fit [] [] s.columns names;
      key_fits =
          ground (arith, key_count s.columns [] s.primary_key key, unseen-length s.columns []);
      count_fits = count;
      index_columns = indexes_fit s.columns [] s.indexes few ixs;
    }
