-- ===== src/Table/Cell.antt =====
-- model/table/cell.go: cells. A cell has a constructor for each Go type that a column's values have, and one for NULL; a
-- machine number is its bit pattern. A value or bytes that are refused are none.
use snapshot_engine.Shared.{
  ℕ, zero, suc, ◌+◌, ◌-◌, ◌^◌, Bool, true, false, not, ◌&&◌, ◌||◌, Option, none, some, [], ◌∷◌, ltb,
  nat_beq, if◌then◌else◌, Bytes, length, take, drop,
}
use snapshot_engine.Document.Text.{rune_size, utf8_valid}
use snapshot_engine.Table.Schema.{
  Column, type_bool, type_int2, type_int4, type_int8, type_float4, type_float8, type_numeric,
  type_text, type_varchar, type_bytea, type_date, type_timestamp, type_timestamptz, type_uuid,
  type_jsonb,
}
use snapshot_engine.Table.Catalog.{◌>>=◌}
use snapshot_engine.Table.Ordered.{
  big_endian, read_big, flip_sign, Float, float_4, float_8, ordered_float, unordered_float, escape,
  unescape,
}
use snapshot_engine.Table.Numeric.{encode_numeric, decode_numeric}

abbrev pub max_cell_len : ℕ
max_cell_len = 2 ^ 20

pub data Cell : Type 0 where
  null : Cell
  bool : Bool → Cell
  int16 int32 int64 : ℕ → Cell
  float32 float64 : ℕ → Cell
  numeric : Bytes → Cell
  string bytea : Bytes → Cell
  date timestamp timestamptz : ℕ → Cell
  uuid jsonb : Bytes → Cell

-- utf8.RuneCount: a byte that is in no rune counts as one.
unfoldable pub runes_from : ℕ → Bytes → ℕ
runes_from k [] = 0
runes_from (suc k) (c ∷ s) = runes_from k s
runes_from zero (c ∷ s) = suc (runes_from (rune_size (c ∷ s) - 1) s)

abbrev pub rune_count : Bytes → ℕ
rune_count = runes_from 0

-- A text that its column can hold.
abbrev pub fits_text : Column → Bytes → Bool
fits_text c s = utf8_valid s && not (nat_beq c.kind type_varchar && ltb c.max_len (rune_count s))

abbrev pub is_text_kind : ℕ → Bool
is_text_kind k = nat_beq k type_text || nat_beq k type_varchar

abbrev pub is_jsonb : Bytes → Bool
is_jsonb s = not (nat_beq (length s) 0) && utf8_valid s

abbrev pub when : Bool → Bytes → Option Bytes
when b s = if b then some s else none

-- A value of its column's type, without the marker.
unfoldable pub write_value : Column → Cell → Option Bytes
write_value c null = none
write_value c (bool x) = when (nat_beq c.kind type_bool) ((if x then 1 else 0) ∷ [])
write_value c (int16 x) = when (nat_beq c.kind type_int2) (big_endian 2 (flip_sign (2 ^ 15) x))
write_value c (int32 x) = when (nat_beq c.kind type_int4) (big_endian 4 (flip_sign (2 ^ 31) x))
write_value c (int64 x) = when (nat_beq c.kind type_int8) (big_endian 8 (flip_sign (2 ^ 63) x))
write_value c (float32 x) =
    when (nat_beq c.kind type_float4) (big_endian 4 (ordered_float float_4 x))
write_value c (float64 x) =
    when (nat_beq c.kind type_float8) (big_endian 8 (ordered_float float_8 x))
write_value c (numeric x) = if nat_beq c.kind type_numeric then encode_numeric x else none
write_value c (string x) = when (is_text_kind c.kind && fits_text c x) (escape x)
write_value c (bytea x) = when (nat_beq c.kind type_bytea) (escape x)
write_value c (date x) = when (nat_beq c.kind type_date) (big_endian 4 (flip_sign (2 ^ 31) x))
write_value c (timestamp x) =
    when (nat_beq c.kind type_timestamp) (big_endian 8 (flip_sign (2 ^ 63) x))
write_value c (timestamptz x) =
    when (nat_beq c.kind type_timestamptz) (big_endian 8 (flip_sign (2 ^ 63) x))
write_value c (uuid x) = when (nat_beq c.kind type_uuid) x
write_value c (jsonb x) = when (nat_beq c.kind type_jsonb && is_jsonb x) (escape x)

abbrev pub bounded_cell : Bytes → Option Bytes
bounded_cell b = if ltb max_cell_len (1 + length b) then none else some (0x01 ∷ b)

abbrev pub is_null : Cell → Bool
is_null null = true
is_null _ = false

unfoldable pub encode_cell : Column → Cell → Option Bytes
encode_cell c v =
    if is_null v
    then (if c.nullable then some (0x00 ∷ []) else none)
    else write_value c v >>= bounded_cell

-- A value after its marker, for each kind of column.
abbrev pub read_bool : Bytes → Option (Cell × Bytes)
read_bool [] = none
read_bool (x ∷ s) = if ltb 1 x then none else some (bool (nat_beq x 1), s)

abbrev pub read_int : (ℕ → Cell) → ℕ → ℕ → Bytes → Option (Cell × Bytes)
read_int cell bytes half s = read_big bytes s >>= (λ (n, t). some (cell (flip_sign half n), t))

abbrev pub read_float : (ℕ → Cell) → ℕ → Float → Bytes → Option (Cell × Bytes)
read_float cell bytes f s = read_big bytes s >>= (λ (u, t).
    if nat_beq (ordered_float f (unordered_float f u)) u
    then some (cell (unordered_float f u), t)
    else none)

abbrev pub read_string : (Bytes → Cell) → (Bytes → Bool) → Bytes → Option (Cell × Bytes)
read_string cell fits s = unescape s >>= (λ (x, t). if fits x then some (cell x, t) else none)

abbrev pub read_uuid : Bytes → Option (Cell × Bytes)
read_uuid s = if ltb (length s) 16 then none else some (uuid (take 16 s), drop 16 s)

unfoldable pub read_value : Column → Bytes → Option (Cell × Bytes)
read_value c s =
    if nat_beq c.kind type_bool
    then read_bool s
    else if nat_beq c.kind type_int2
    then read_int int16 2 (2 ^ 15) s
    else if nat_beq c.kind type_int4
    then read_int int32 4 (2 ^ 31) s
    else if nat_beq c.kind type_int8
    then read_int int64 8 (2 ^ 63) s
    else if nat_beq c.kind type_float4
    then read_float float32 4 float_4 s
    else if nat_beq c.kind type_float8
    then read_float float64 8 float_8 s
    else if nat_beq c.kind type_numeric
    then decode_numeric s >>= (λ (x, t). some (numeric x, t))
    else if is_text_kind c.kind
    then read_string string (fits_text c) s
    else if nat_beq c.kind type_bytea
    then read_string bytea (λ x. true) s
    else if nat_beq c.kind type_date
    then read_int date 4 (2 ^ 31) s
    else if nat_beq c.kind type_timestamp
    then read_int timestamp 8 (2 ^ 63) s
    else if nat_beq c.kind type_timestamptz
    then read_int timestamptz 8 (2 ^ 63) s
    else if nat_beq c.kind type_uuid
    then read_uuid s
    else if nat_beq c.kind type_jsonb
    then read_string jsonb is_jsonb s
    else none

unfoldable pub decode_cell : Column → Bytes → Option (Cell × Bytes)
decode_cell c [] = none
decode_cell c (m ∷ s) =
    if nat_beq m 0x00
    then (if c.nullable then some (null, s) else none)
    else if nat_beq m 0x01
    then read_value c s
    else none

-- The longest cell of a column.
unfoldable pub max_cell : Column → ℕ
max_cell c =
    let k = c.kind in
    if nat_beq k type_bool
    then 1 + 1
    else if nat_beq k type_int2
    then 1 + 2
    else if nat_beq k type_int4 || (nat_beq k type_float4 || nat_beq k type_date)
    then 1 + 4
    else if nat_beq k type_int8
        || (nat_beq k type_float8 || (nat_beq k type_timestamp || nat_beq k type_timestamptz))
    then 1 + 8
    else if nat_beq k type_uuid
    then 1 + 16
    else max_cell_len
