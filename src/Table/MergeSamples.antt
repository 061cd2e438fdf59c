-- ===== src/Table/MergeSamples.antt =====
-- model/table/schemamerge.go: two sides that changed a small schema, and the theorems at them.
use snapshot_engine.Shared.{
  ◌≡◌, refl, true, false, none, inr, List, [], ◌∷◌, codes, String, find, put, bytes_comparable,
  nat_comparable,
}
use snapshot_engine.Merge.Scalar.{scalar}
use snapshot_engine.Table.Schema.{
  Column, Schema, column, type_int4, type_int8, type_text, validate, check_columns, check_column,
  check_key, check_indexes, column_eq,
}
use snapshot_engine.Table.SchemaMerge.{
  merge_column, keep_columns, add_columns, find_index, keep_indexes, add_indexes, merge_indexes,
  merged_parts, merge_schemas,
}
use snapshot_engine.Table.Merged.{merge_schemas-validate, merge_schemas-has_column, has_column}

abbrev first_name : List String → String
first_name [] = ""
first_name (n ∷ ns) = n

abbrev id_column : Column
id_column = record { tag = 1; name = codes "id"; kind = type_int4; nullable = false; max_len = 0 }

abbrev note_column : Column
note_column = record {
  tag = 2;
  name = codes "note";
  kind = type_text;
  nullable = true;
  max_len = 0;
}

abbrev renamed_column : Column
renamed_column = record {
  tag = 2;
  name = codes "remark";
  kind = type_text;
  nullable = true;
  max_len = 0;
}

abbrev size_column : Column
size_column = record {
  tag = 3;
  name = codes "size";
  kind = type_int8;
  nullable = true;
  max_len = 0;
}

abbrev base_schema : Schema
base_schema = record { columns = id_column ∷ note_column ∷ []; primary_key = 1 ∷ []; indexes = [] }

-- Ours renames a column, theirs adds one.
abbrev our_schema : Schema
our_schema = record {
  columns = id_column ∷ renamed_column ∷ [];
  primary_key = 1 ∷ [];
  indexes = [];
}

abbrev their_schema : Schema
their_schema = record {
  columns = id_column ∷ note_column ∷ size_column ∷ [];
  primary_key = 1 ∷ [];
  indexes = [];
}

abbrev merged_schema : Schema
merged_schema = record {
  columns = id_column ∷ renamed_column ∷ size_column ∷ [];
  primary_key = 1 ∷ [];
  indexes = [];
}

our_schema_validated : validate our_schema ≡ none
unfolding validate check_columns check_column check_key check_indexes column
our_schema_validated = refl

their_schema_validated : validate their_schema ≡ none
unfolding validate check_columns check_column check_key check_indexes column
their_schema_validated = refl

schemas_merged :
    merge_schemas first_name base_schema our_schema their_schema (codes "b") (codes "o") (codes "t")
    ≡ inr merged_schema
unfolding merge_schemas merged_parts keep_columns merge_column scalar add_columns find put
    merge_indexes keep_indexes add_indexes find_index column column_eq validate check_columns
    check_column check_key check_indexes
schemas_merged = refl

merge_schemas-validate_example :
    (validate merged_schema ≡ none) × (merged_schema.primary_key ≡ base_schema.primary_key)
merge_schemas-validate_example =
    merge_schemas-validate first_name base_schema our_schema their_schema (codes "b") (codes "o")
      (codes "t") merged_schema our_schema_validated their_schema_validated schemas_merged

base_has_note : has_column base_schema.columns note_column ≡ true
unfolding column_eq
base_has_note = refl

merge_schemas-has_column_example : has_column merged_schema.columns renamed_column ≡ true
unfolding column
merge_schemas-has_column_example =
    merge_schemas-has_column first_name base_schema our_schema their_schema (codes "b") (codes "o")
      (codes "t") merged_schema note_column renamed_column refl base_has_note refl refl
      schemas_merged
