-- ===== src/Table/Samples.antt =====
-- model/table/: a table of two columns and an index, and the theorems at it.
use snapshot_engine.Shared.{◌≡◌, refl, true, false, inr, none, some, [], ◌∷◌, codes, arith}
use snapshot_engine.Wire.Cells.{cells, cells-Laws}
use snapshot_engine.Table.Schema.{
  Schema, column, check_column, check_columns, check_key, check_index_columns, check_indexes,
  validate, type_int4, type_varchar,
}
use snapshot_engine.Table.Catalog.{encode_catalog, write_catalog, decode_catalog}
use snapshot_engine.Table.Records.{Sized, decode_catalog-encode_catalog, decode_catalog-validate}

abbrev people : Schema
people = record {
  columns =
      record { tag = 1; name = codes "id"; kind = type_int4; nullable = false; max_len = 0 }
      ∷ record { tag = 2; name = codes "name"; kind = type_varchar; nullable = true; max_len = 40 }
      ∷ [];
  primary_key = 1 ∷ [];
  indexes = record { tag = 1; columns = 2 ∷ [] } ∷ [];
}

people_validated : validate people ≡ none
unfolding validate check_columns check_column check_key check_indexes check_index_columns column
people_validated = refl

people_encoded : encode_catalog cells people ≡ inr (write_catalog cells people)
unfolding encode_catalog validate check_columns check_column check_key check_indexes
    check_index_columns column
people_encoded = refl

people-Sized : Sized people
people-Sized = (
  ((omega arith, omega arith, omega arith), ((omega arith, omega arith, omega arith), tt)),
  (omega arith, tt),
  ((omega arith, (omega arith, tt)), tt),
)

decode_catalog-encode_catalog_example :
    decode_catalog cells (write_catalog cells people) ≡ some people
decode_catalog-encode_catalog_example =
    decode_catalog-encode_catalog cells people (write_catalog cells people) cells-Laws people-Sized
      people_encoded

decode_catalog-validate_example : validate people ≡ none
decode_catalog-validate_example =
    decode_catalog-validate cells (write_catalog cells people) people (
      decode_catalog-encode_catalog cells people (write_catalog cells people) cells-Laws
        people-Sized people_encoded)
