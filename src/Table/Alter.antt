-- ===== src/Table/Alter.antt =====
-- model/table/alter.go: what a column's values can follow of a change to its type, and when a schema can be a table's
-- next. A refusal is none, or a fault; `widen` is the machine's float32 as a float64.
use snapshot_engine.Shared.{
  ℕ, ◌+◌, ◌-◌, ◌*◌, ◌^◌, not, ◌&&◌, ◌||◌, Option, none, some, List, [], ◌∷◌, ltb, nat_beq,
  if◌then◌else◌, find, put, nat_comparable, list_eq,
}
use snapshot_engine.Table.Schema.{
  Column, Schema, Fault, key_changed, not_null_added, key_retyped, not_convertible, column, has_tag,
  validate, type_int2, type_int4, type_int8, type_float4, type_float8, type_text, type_varchar,
}
use snapshot_engine.Table.Catalog.{◌>>=◌}
use snapshot_engine.Table.Cell.{Cell, int16, int32, int64, float32, float64, is_null}

abbrev pub Row : Type 0
Row = List (ℕ × Cell)

unfoldable pub convertible : Column → Column → Option Fault
convertible from to =
    if nat_beq from.kind to.kind
    then none
    else if nat_beq from.kind type_int2 && (nat_beq to.kind type_int4 || nat_beq to.kind type_int8)
    then none
    else if nat_beq from.kind type_int4 && nat_beq to.kind type_int8
    then none
    else if nat_beq from.kind type_float4 && nat_beq to.kind type_float8
    then none
    else if nat_beq from.kind type_varchar && nat_beq to.kind type_text
    then none
    else some (not_convertible from.kind to.kind)

-- A machine integer in a wider type: a negative one keeps its value.
abbrev pub sign_extend : ℕ → ℕ → ℕ → ℕ
sign_extend half wide n = if ltb n half then n else n + (2 * wide - 2 * half)

module _ (widen : ℕ → ℕ) where
  -- A value that changes its type.
  abbrev pub widened : Column → Cell → Cell
  widened to (int16 x) =
      if nat_beq to.kind type_int4
      then int32 (sign_extend (2 ^ 15) (2 ^ 31) x)
      else int64 (sign_extend (2 ^ 15) (2 ^ 63) x)
  widened to (int32 x) = int64 (sign_extend (2 ^ 31) (2 ^ 63) x)
  widened to (float32 x) = float64 (widen x)
  widened to v = v

  unfoldable pub convert_cell : Cell → Column → Column → Option Cell
  convert_cell v from to = elim (convertible from to) [
    | some e ↦ none
    | none ↦ if is_null v || nat_beq from.kind to.kind then some v else some (widened to v)
  ]

  -- The columns that are left, into the row that is built.
  unfoldable pub convert_columns : Schema → Row → List Column → Row → Option Row
  convert_columns s row [] out = some out
  convert_columns s row (c ∷ cs) out = elim (find c.tag row) [
    | none ↦ convert_columns s row cs out
    | some v ↦ elim (column s.columns c.tag) [
      | none ↦ convert_columns s row cs out
      | some from ↦
          convert_cell v from c
          >>= (λ u. convert_columns s row cs (if is_null u then out else put c.tag u out))
    ]
  ]

  unfoldable pub convert_row : Schema → Row → Schema → Option Row
  convert_row s row next = convert_columns s row next.columns []

-- The next schema's columns, against the table's.
unfoldable pub alterable_columns : Schema → List Column → Option Fault
alterable_columns s [] = none
alterable_columns s (c ∷ cs) =
    let rest = alterable_columns s cs in
    elim (column s.columns c.tag) [
      | none ↦ if not c.nullable then some not_null_added else rest
      | some from ↦
          if has_tag s.primary_key c.tag
            && (not (nat_beq from.kind c.kind) || not (nat_beq from.max_len c.max_len))
          then some key_retyped
          else elim (convertible from c) [ some e ↦ some e | none ↦ rest ]
    ]

unfoldable pub alterable : Schema → Schema → Option Fault
alterable s next = elim (validate next) [
  | some e ↦ some e
  | none ↦
      if not (list_eq next.primary_key s.primary_key)
      then some key_changed
      else alterable_columns s next.columns
]
