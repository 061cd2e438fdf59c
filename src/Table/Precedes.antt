-- ===== src/Table/Precedes.antt =====
-- model/table/cell.go: the order of cells, NULL first, that the byte order of what is stored for them is to be.
use snapshot_engine.Shared.{
  ℕ, ◌^◌, Bool, true, false, not, ◌&&◌, ltb, leb, nat_beq, if◌then◌else◌, bytes_lt,
}
use snapshot_engine.Table.Ordered.{Float, float_4, float_8, magnitude, is_nan}
use snapshot_engine.Table.Cell.{
  Cell, null, bool, int16, int32, int64, float32, float64, string, bytea, date, timestamp,
  timestamptz, uuid, jsonb,
}

-- Machine integers as integers: below `half` they are as they are, from it on negative.
abbrev pub int_lt : ℕ → ℕ → ℕ → Bool
int_lt half x y =
    if leb half x
    then (if leb half y then ltb x y else true)
    else if leb half y
    then false
    else ltb x y

abbrev pub is_negative : Float → ℕ → Bool
is_negative f u = leb f.half u && not (nat_beq (magnitude f u) 0)

-- Floats as numbers, whose bits without the sign are in the order of their sizes; a NaN is above every number.
abbrev pub float_lt : Float → ℕ → ℕ → Bool
float_lt f x y =
    if is_nan f x
    then false
    else if is_nan f y
    then true
    else if is_negative f x
    then (if is_negative f y then ltb (magnitude f y) (magnitude f x) else true)
    else if is_negative f y
    then false
    else ltb (magnitude f x) (magnitude f y)

abbrev pub cell_lt : Cell → Cell → Bool
cell_lt null null = false
cell_lt null _ = true
cell_lt (bool x) (bool y) = not x && y
cell_lt (int16 x) (int16 y) = int_lt (2 ^ 15) x y
cell_lt (int32 x) (int32 y) = int_lt (2 ^ 31) x y
cell_lt (int64 x) (int64 y) = int_lt (2 ^ 63) x y
cell_lt (float32 x) (float32 y) = float_lt float_4 x y
cell_lt (float64 x) (float64 y) = float_lt float_8 x y
cell_lt (string x) (string y) = bytes_lt x y
cell_lt (bytea x) (bytea y) = bytes_lt x y
cell_lt (date x) (date y) = int_lt (2 ^ 31) x y
cell_lt (timestamp x) (timestamp y) = int_lt (2 ^ 63) x y
cell_lt (timestamptz x) (timestamptz y) = int_lt (2 ^ 63) x y
cell_lt (uuid x) (uuid y) = bytes_lt x y
cell_lt (jsonb x) (jsonb y) = bytes_lt x y
cell_lt _ _ = false
