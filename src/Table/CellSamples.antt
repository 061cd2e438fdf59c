-- ===== src/Table/CellSamples.antt =====
-- model/table/: cells and keys of a small table, tests on them, and the theorems at them.
use snapshot_engine.Shared.{
  ℕ, ◌≤◌, ◌≡◌, refl, true, false, none, some, List, [], ◌∷◌, ◌++◌, length, Bytes, bytes_lt, codes,
  arith, find, put, nat_comparable,
}
use snapshot_engine.Document.Text.{rune_size, valid_from}
use snapshot_engine.Table.Schema.{
  Column, Schema, column, type_int2, type_int8, validate, check_columns, check_column, check_key,
  check_indexes, type_int4, type_numeric, type_text, type_float8,
}
use snapshot_engine.Table.Ordered.{big_endian, ordered_float, escape}
use snapshot_engine.Table.Numeric.{
  parse_decimal, mantissa, numeral_of, exponent_value, parse_exponent, canonical_len,
  canonical_text, write_numeral, encode_numeric, parse_numeric,
}
use snapshot_engine.Table.Cell.{
  Cell, int16, int64, int32, float64, numeric, string, write_value, encode_cell, decode_cell,
  max_cell, runes_from,
}
use snapshot_engine.Table.CellRoundTrip.{decode_cell-encode_cell}
use snapshot_engine.Table.Widths.{encode_cell-max_cell}
use snapshot_engine.Table.Alter.{
  Row, convertible, convert_cell, convert_columns, convert_row, alterable_columns, alterable,
}
use snapshot_engine.Table.Altered.{IsTyped, in_column, alterable-convert_row}
use snapshot_engine.Table.Keys.{KeyValue, cell, encode_key, decode_key, encode_cells}
use snapshot_engine.Table.KeyOrder.{decode_key-encode_key, encode_key-key_lt, key_lt}

abbrev price : Column
price = record { tag = 3; name = codes "price"; kind = type_numeric; nullable = true; max_len = 0 }

abbrev place : Column
place = record { tag = 2; name = codes "place"; kind = type_text; nullable = false; max_len = 0 }

abbrev degrees : Column
degrees = record { tag = 4; name = codes "degrees"; kind = type_int4; nullable = true; max_len = 0 }

abbrev width : Column
width = record { tag = 5; name = codes "width"; kind = type_float8; nullable = true; max_len = 0 }

-- -12.5: the class, the exponent 2 and the digits, each but the class complemented.
abbrev price_bytes : Bytes
price_bytes = 1 ∷ 1 ∷ 0x7F ∷ 0xFF ∷ 0xFF ∷ 0xFD ∷ 9 ∷ 8 ∷ 5 ∷ 0xFF ∷ []

price_stored : encode_cell price (numeric (codes "-12.5")) ≡ some price_bytes
unfolding encode_cell write_value encode_numeric parse_decimal mantissa numeral_of canonical_len
    canonical_text write_numeral big_endian
price_stored = refl

price_respelled : parse_numeric (codes "-0125.0e-1") ≡ some (codes "-12.5")
unfolding parse_numeric parse_decimal mantissa parse_exponent exponent_value numeral_of
    canonical_len canonical_text
price_respelled = refl

decode_cell-encode_cell_example :
    decode_cell price (price_bytes ++ codes "rest") ≡ some (numeric (codes "-12.5"), codes "rest")
decode_cell-encode_cell_example =
    decode_cell-encode_cell price (numeric (codes "-12.5")) price_bytes (codes "rest") tt
      price_stored

-- 0.5, whose bits are 0x3FE0000000000000.
abbrev width_bytes : Bytes
width_bytes = 1 ∷ 0xBF ∷ 0xE0 ∷ 0 ∷ 0 ∷ 0 ∷ 0 ∷ 0 ∷ 0 ∷ []

width_stored : encode_cell width (float64 0x3FE0000000000000) ≡ some width_bytes
unfolding encode_cell write_value ordered_float big_endian
width_stored = refl

encode_cell-max_cell_example : length width_bytes ≤ max_cell width
encode_cell-max_cell_example =
    encode_cell-max_cell width (float64 0x3FE0000000000000) width_bytes (omega arith) width_stored

abbrev place_bytes : Bytes
place_bytes = 1 ∷ 97 ∷ 0 ∷ 0 ∷ []

place_stored : encode_cell place (string (codes "a")) ≡ some place_bytes
unfolding encode_cell write_value valid_from rune_size runes_from escape
place_stored = refl

abbrev readings : Schema
readings = record { columns = place ∷ degrees ∷ []; primary_key = 2 ∷ 4 ∷ []; indexes = [] }

-- The place a, at -1 and at 7 degrees.
abbrev cold : List KeyValue
cold = cell (string (codes "a")) ∷ cell (int32 4294967295) ∷ []

abbrev warm : List KeyValue
warm = cell (string (codes "a")) ∷ cell (int32 7) ∷ []

abbrev cold_bytes : Bytes
cold_bytes = 1 ∷ 97 ∷ 0 ∷ 0 ∷ 1 ∷ 0x7F ∷ 0xFF ∷ 0xFF ∷ 0xFF ∷ []

abbrev warm_bytes : Bytes
warm_bytes = 1 ∷ 97 ∷ 0 ∷ 0 ∷ 1 ∷ 0x80 ∷ 0 ∷ 0 ∷ 7 ∷ []

cold_stored : encode_key 1024 readings cold ≡ some cold_bytes
unfolding encode_key encode_cells column encode_cell write_value valid_from rune_size runes_from
    escape big_endian
cold_stored = refl

warm_stored : encode_key 1024 readings warm ≡ some warm_bytes
unfolding encode_key encode_cells column encode_cell write_value valid_from rune_size runes_from
    escape big_endian
warm_stored = refl

decode_key-encode_key_example : decode_key readings cold_bytes ≡ some cold
decode_key-encode_key_example =
    decode_key-encode_key 1024 readings cold cold_bytes (tt, (omega arith, tt)) cold_stored

encode_key-key_lt_example : bytes_lt cold_bytes warm_bytes ≡ key_lt cold warm
encode_key-key_lt_example =
    encode_key-key_lt 1024 readings cold warm cold_bytes warm_bytes refl (tt, (omega arith, tt))
      (tt, (omega arith, tt)) refl cold_stored warm_stored

-- A smallint column that becomes a bigint, and a column that is added.
abbrev counts : Schema
counts = record {
  columns =
      record { tag = 1; name = codes "n"; kind = type_int2; nullable = true; max_len = 0 } ∷ [];
  primary_key = [];
  indexes = [];
}

abbrev wide_counts : Schema
wide_counts = record {
  columns =
      record { tag = 1; name = codes "n"; kind = type_int8; nullable = true; max_len = 0 }
      ∷ record { tag = 2; name = codes "note"; kind = type_text; nullable = true; max_len = 0 }
      ∷ [];
  primary_key = [];
  indexes = [];
}

-- -2
abbrev count_row : Row
count_row = (1, int16 65534) ∷ []

count_row_converted :
    convert_row (λ x. x) counts count_row wide_counts ≡ some ((1, int64 18446744073709551614) ∷ [])
unfolding convert_row convert_columns convert_cell convertible column find put
count_row_converted = refl

count_row-IsTyped : IsTyped counts.columns count_row
unfolding find column
count_row-IsTyped t v c f g = ground (arith, f, g)

counts_alterable : alterable counts wide_counts ≡ none
unfolding alterable alterable_columns convertible validate check_columns check_column check_key
    check_indexes column
counts_alterable = refl

alterable-convert_row_example :
    (made : Row) × (convert_row (λ x. x) counts count_row wide_counts ≡ some made)
    × ((t : ℕ) (u : Cell) → find t made ≡ some u → in_column wide_counts.columns t u ≡ true)
alterable-convert_row_example =
    alterable-convert_row (λ x. x) counts wide_counts count_row counts_alterable count_row-IsTyped
