-- ===== src/Table/SchemaMerge.antt =====
-- model/table/schemamerge.go: the merge of two schemas over their base. `blame` is the attribute that a conflict names,
-- of those that both sides changed differently, since the source takes it from a Go map.
use snapshot_engine.Shared.{
  ℕ, Bool, not, ◌||◌, ◌⊎◌, inl, inr, Option, none, some, List, [], ◌∷◌, ◌++◌, ltb, nat_beq,
  if◌then◌else◌, Bytes, String, find, put, keep, map, is_some, all, list_eq, nat_comparable,
  bytes_comparable, ◌==◌, length,
}
use snapshot_engine.Merge.Types.{clean}
use snapshot_engine.Merge.Scalar.{scalar}
use snapshot_engine.Table.Schema.{
  Column, Index, Schema, Fault, column, has_tag, validate, column_eq, column_comparable,
  bool_comparable,
}

-- schema, schema/<tag> and schema/index/<tag>
pub data Location : Type 0 where
  whole : Location
  at_column : ℕ → Location
  at_index : ℕ → Location

pub data Reason : Type 0 where
  key_differs dropped_and_changed added_differently both_changed : Reason
  attribute : String → Reason
  no_table : Fault → Reason

pub record SchemaConflict : Type 0 where
  pub location : Location
  pub reason : Reason

abbrev pub conflict : Location → Reason → SchemaConflict
conflict l r = record { location = l; reason = r }

pub record Columns : Type 0 where
  pub kept : List Column
  pub conflicts : List SchemaConflict

module _ (blame : List String → String) where
  -- The attributes that do not merge.
  abbrev pub unclean : List (String × Bool) → List String
  unclean [] = []
  unclean ((name, ok) ∷ rest) = let names = unclean rest in if ok then names else name ∷ names

  unfoldable pub merge_column : Column → Column → Column → String ⊎ Column
  merge_column b o t =
      let name = scalar b.name o.name t.name in
      let kind = scalar b.kind o.kind t.kind in
      let nullable = scalar b.nullable o.nullable t.nullable in
      let max_len = scalar b.max_len o.max_len t.max_len in
      let bad = unclean (
        ("name", clean name)
        ∷ ("type", clean kind)
        ∷ ("nullability", clean nullable)
        ∷ ("length", clean max_len)
        ∷ []) in
      if not (nat_beq (length bad) 0)
      then inl (blame bad)
      else inr (record {
        tag = b.tag;
        name = name.value;
        kind = kind.value;
        nullable = nullable.value;
        max_len = max_len.value;
      })

  -- One column of the base, with what each side has of it.
  abbrev pub keep_column : Column → Option Column → Option Column → Columns
  keep_column b none none = record { kept = []; conflicts = [] }
  keep_column b none (some t) = record {
    kept = [];
    conflicts = if column_eq t b then [] else conflict (at_column b.tag) dropped_and_changed ∷ [];
  }
  keep_column b (some o) none = record {
    kept = [];
    conflicts = if column_eq o b then [] else conflict (at_column b.tag) dropped_and_changed ∷ [];
  }
  keep_column b (some o) (some t) = elim (merge_column b o t) [
    | inl why ↦ record { kept = []; conflicts = conflict (at_column b.tag) (attribute why) ∷ [] }
    | inr c ↦ record { kept = c ∷ []; conflicts = [] }
  ]

  unfoldable pub keep_columns : Schema → Schema → List Column → Columns
  keep_columns ours theirs [] = record { kept = []; conflicts = [] }
  keep_columns ours theirs (b ∷ bs) =
      let first = keep_column b (column ours.columns b.tag) (column theirs.columns b.tag) in
      let rest = keep_columns ours theirs bs in
      record { kept = first.kept ++ rest.kept; conflicts = first.conflicts ++ rest.conflicts }

-- The columns that a side added, by tag, after those found so far.
pub record Added (A : Type 0) : Type 0 where
  pub found : List (ℕ × A)
  pub conflicts : List SchemaConflict

abbrev add_one : {A : Type 0} → (A → A → Bool) → Location → ℕ → A → Added A → Added A
add_one eq l t a r = elim (find t r.found) [
  | some prev ↦
      if eq prev a
      then record r { found = put t a r.found }
      else record r { conflicts = r.conflicts ++ (conflict l added_differently ∷ []) }
  | none ↦ record r { found = put t a r.found }
]

unfoldable pub add_columns : Schema → List Column → Added Column → Added Column
add_columns base [] r = r
add_columns base (c ∷ cs) r = add_columns base cs (
    if is_some (column base.columns c.tag)
    then r
    else add_one column_eq (at_column c.tag) c.tag c r)

-- The entries of a map in the order of their tags.
abbrev insert_tag : {A : Type 0} → ℕ × A → List (ℕ × A) → List (ℕ × A)
insert_tag e [] = e ∷ []
insert_tag (t, a) ((u, b) ∷ d) =
    let rest = insert_tag (t, a) d in if ltb u t then (u, b) ∷ rest else (t, a) ∷ (u, b) ∷ d

abbrev sort_tags : {A : Type 0} → List (ℕ × A) → List (ℕ × A)
sort_tags [] = []
sort_tags (e ∷ d) = insert_tag e (sort_tags d)

abbrev pub sorted_by_tag : {A : Type 0} → List (ℕ × A) → List A
sorted_by_tag d = map (λ (t, a). a) (sort_tags d)

unfoldable pub find_index : List Index → ℕ → Option Index
find_index [] t = none
find_index (ix ∷ ixs) t = let rest = find_index ixs t in if nat_beq ix.tag t then some ix else rest

abbrev pub same_index : Index → Index → Bool
same_index a b = list_eq a.columns b.columns

abbrev pub covers : List ℕ → Index → Bool
covers present ix = all (has_tag present) ix.columns

pub record Indexes : Type 0 where
  pub kept : List Index
  pub conflicts : List SchemaConflict

abbrev covered : List ℕ → Index → Indexes
covered present ix = record { kept = if covers present ix then ix ∷ [] else []; conflicts = [] }

abbrev pub keep_index : List ℕ → Index → Option Index → Option Index → Indexes
keep_index present b none none = record { kept = []; conflicts = [] }
keep_index present b none (some t) = record {
  kept = [];
  conflicts = if same_index t b then [] else conflict (at_index b.tag) dropped_and_changed ∷ [];
}
keep_index present b (some o) none = record {
  kept = [];
  conflicts = if same_index o b then [] else conflict (at_index b.tag) dropped_and_changed ∷ [];
}
keep_index present b (some o) (some t) =
    if same_index o t || same_index t b
    then covered present o
    else if same_index o b
    then covered present t
    else record { kept = []; conflicts = conflict (at_index b.tag) both_changed ∷ [] }

unfoldable pub keep_indexes : List ℕ → Schema → Schema → List Index → Indexes
keep_indexes present ours theirs [] = record { kept = []; conflicts = [] }
keep_indexes present ours theirs (b ∷ bs) =
    let first =
      keep_index present b (find_index ours.indexes b.tag) (find_index theirs.indexes b.tag) in
    let rest = keep_indexes present ours theirs bs in
    record { kept = first.kept ++ rest.kept; conflicts = first.conflicts ++ rest.conflicts }

unfoldable pub add_indexes : Schema → List Index → Added Index → Added Index
add_indexes base [] r = r
add_indexes base (ix ∷ ixs) r = add_indexes base ixs (
    if is_some (find_index base.indexes ix.tag)
    then r
    else add_one same_index (at_index ix.tag) ix.tag ix r)

unfoldable pub merge_indexes : Schema → Schema → Schema → List ℕ → List SchemaConflict → Indexes
merge_indexes base ours theirs present conflicts =
    let old = keep_indexes present ours theirs base.indexes in
    let start : Added Index = record { found = []; conflicts = conflicts ++ old.conflicts } in
    let new = add_indexes base theirs.indexes (add_indexes base ours.indexes start) in
    record {
      kept = old.kept ++ keep (covers present) (sorted_by_tag new.found);
      conflicts = new.conflicts;
    }

abbrev pub tags_of : List Column → List ℕ
tags_of = map (λ c. c.tag)

module _ (blame : List String → String) where
  -- The schema that the three make, with the conflicts on the way to it.
  unfoldable pub merged_parts : Schema → Schema → Schema → Schema × List SchemaConflict
  merged_parts base ours theirs =
      let old = keep_columns blame ours theirs base.columns in
      let start : Added Column = record { found = []; conflicts = old.conflicts } in
      let new = add_columns base theirs.columns (add_columns base ours.columns start) in
      let columns = old.kept ++ sorted_by_tag new.found in
      let ixs = merge_indexes base ours theirs (tags_of columns) new.conflicts in
      (
        record { columns = columns; primary_key = base.primary_key; indexes = ixs.kept },
        ixs.conflicts,
      )

  abbrev pub accept_merged : Schema × List SchemaConflict → List SchemaConflict ⊎ Schema
  accept_merged (s, (c ∷ cs)) = inl (c ∷ cs)
  accept_merged (s, []) = elim (validate s) [
    | some e ↦ inl (conflict whole (no_table e) ∷ [])
    | none ↦ inr s
  ]

  unfoldable pub merge_schemas :
      Schema → Schema → Schema → Bytes → Bytes → Bytes → List SchemaConflict ⊎ Schema
  merge_schemas base ours theirs base_cat ours_cat theirs_cat =
      if not (list_eq ours.primary_key base.primary_key)
        || not (list_eq theirs.primary_key base.primary_key)
      then inl (conflict whole key_differs ∷ [])
      else if ours_cat == theirs_cat
      then inr ours
      else if ours_cat == base_cat
      then inr theirs
      else if theirs_cat == base_cat
      then inr ours
      else accept_merged (merged_parts base ours theirs)

-- The base's columns that a side's schema lacks.
unfoldable pub dropped_by : List Column → Schema → List ℕ
dropped_by [] side = []
dropped_by (c ∷ cs) side =
    let rest = dropped_by cs side in
    if is_some (column side.columns c.tag) then rest else c.tag ∷ rest
