-- ===== src/Table/Widths.antt =====
-- model/table/cell.go: `maxCell` bounds the cells that `encodeCell` writes.
use snapshot_engine.Shared.{
  ◌+◌, ◌^◌, ◌≤◌, ◌≡◌, refl, sym, ◌∙◌, true, false, ◌⊎◌, inl, inr, some, Bytes, length, arith,
  Bool-cases,
}
use snapshot_engine.Table.Schema.{Column}
use snapshot_engine.Table.Ordered.{flip_sign, float_4, float_8, ordered_float}
use snapshot_engine.Table.Pieces.{length-big_endian}
use snapshot_engine.Table.Numerals.{bind-some}
use snapshot_engine.Table.Cell.{
  Cell, null, bool, int16, int32, int64, float32, float64, numeric, string, bytea, date, timestamp,
  timestamptz, uuid, jsonb, write_value, bounded_cell, is_null, encode_cell, max_cell, max_cell_len,
}
use snapshot_engine.Table.CellRoundTrip.{Sized}

-- A value of a fixed width has it, or its column's cells may be of any length.
length-write_value :
    (c : Column) (v : Cell) (b : Bytes)
    → Sized v
    → write_value c v ≡ some b
    → (1 + length b ≤ max_cell c) ⊎ (max_cell_len ≤ max_cell c)
unfolding write_value max_cell
length-write_value c null b z h = cc
length-write_value c (bool true) b z h = ground (arith, h)
length-write_value c (bool false) b z h = ground (arith, h)
length-write_value c (int16 x) b z h = ground (arith, h, length-big_endian 2 (flip_sign (2 ^ 15) x))
length-write_value c (int32 x) b z h = ground (arith, h, length-big_endian 4 (flip_sign (2 ^ 31) x))
length-write_value c (int64 x) b z h = ground (arith, h, length-big_endian 8 (flip_sign (2 ^ 63) x))
length-write_value c (float32 x) b z h =
    ground (arith, h, length-big_endian 4 (ordered_float float_4 x))
length-write_value c (float64 x) b z h =
    ground (arith, h, length-big_endian 8 (ordered_float float_8 x))
length-write_value c (numeric x) b z h = ground (arith, h)
length-write_value c (string x) b z h = ground (arith, h)
length-write_value c (bytea x) b z h = ground (arith, h)
length-write_value c (date x) b z h = ground (arith, h, length-big_endian 4 (flip_sign (2 ^ 31) x))
length-write_value c (timestamp x) b z h =
    ground (arith, h, length-big_endian 8 (flip_sign (2 ^ 63) x))
length-write_value c (timestamptz x) b z h =
    ground (arith, h, length-big_endian 8 (flip_sign (2 ^ 63) x))
length-write_value c (uuid x) b z h = ground (arith, h, z)
length-write_value c (jsonb x) b z h = ground (arith, h)

max_cell_pos : (c : Column) → 1 ≤ max_cell c
unfolding max_cell
max_cell_pos c = ground arith

-- A cell of its Go type's size that is written is no longer than `max_cell` of its column.
pub encode_cell-max_cell :
    (c : Column) (v : Cell) (b : Bytes) → Sized v → encode_cell c v ≡ some b → length b ≤ max_cell c
unfolding encode_cell
encode_cell-max_cell c v b z h = elim (Bool-cases (is_null v)) [
  | inl e ↦ ground (arith, e, h, max_cell_pos c)
  | inr e ↦
      let (t, wrote, k) = bind-some (write_value c v) bounded_cell (sym (rw e refl) ∙ h) in
      elim (length-write_value c v t z wrote) [
        | inl l ↦ ground (arith, l, k)
        | inr l ↦ ground (arith, l, k)
      ]
]
