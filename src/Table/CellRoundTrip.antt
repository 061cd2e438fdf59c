-- ===== src/Table/CellRoundTrip.antt =====
-- model/table/cell.go: `decodeCell` reads back what `encodeCell` writes.
use snapshot_engine.Shared.{
  ℕ, suc, ◌*◌, ◌^◌, ◌≤◌, ◌<◌, ◌≡◌, refl, ap, sym, ◌∙◌, Bool, true, false, ◌⊎◌, inl, inr, none, some,
  [], ◌∷◌, ◌++◌, ltb, nat_beq, nat_beq_iff, if◌then◌else◌, Bytes, length, length-append, take, drop,
  take-append, drop-append, arith, Bool-cases,
}
use snapshot_engine.Table.Schema.{
  Column, type_bool, type_int2, type_int4, type_int8, type_float4, type_float8, type_numeric,
  type_text, type_varchar, type_bytea, type_date, type_timestamp, type_timestamptz, type_uuid,
  type_jsonb,
}
use snapshot_engine.Table.Catalog.{◌>>=◌}
use snapshot_engine.Table.Ordered.{
  byte_range, big_endian, flip_sign, Float, float_4, float_8, is_nan, ordered_float,
  unordered_float, escape,
}
use snapshot_engine.Table.Pieces.{
  read_big-big_endian, flip_sign_twice, flip_sign_bound, unescape-escape, plain_float,
  unordered_float-ordered_float, ordered_float_plain, ordered_float_bound,
}
use snapshot_engine.Table.Numeric.{encode_numeric}
use snapshot_engine.Table.Numerals.{bind-some, decode_numeric-encode_numeric}
use snapshot_engine.Table.Cell.{
  Cell, null, bool, int16, int32, int64, float32, float64, numeric, string, bytea, date, timestamp,
  timestamptz, uuid, jsonb, is_text_kind, fits_text, is_jsonb, when, write_value, bounded_cell,
  is_null, encode_cell, read_int, read_float, read_string, read_uuid, read_value, decode_cell,
}

-- The sizes of Go's types.
abbrev pub Sized : Cell → Type 0
Sized (int16 x) = x < 2 ^ 16
Sized (int32 x) = x < 2 ^ 32
Sized (int64 x) = x < 2 ^ 64
Sized (float32 x) = x < 2 ^ 32
Sized (float64 x) = x < 2 ^ 64
Sized (date x) = x < 2 ^ 32
Sized (timestamp x) = x < 2 ^ 64
Sized (timestamptz x) = x < 2 ^ 64
Sized (uuid x) = length x ≡ 16
Sized _ = Unit

-- A value as it is stored: a float has one zero and one NaN.
abbrev pub plain : Cell → Cell
plain (float32 x) = float32 (plain_float float_4 x)
plain (float64 x) = float64 (plain_float float_8 x)
plain v = v

pub when-some : (b : Bool) (s t : Bytes) → when b s ≡ some t → (b ≡ true) × (s ≡ t)
when-some b s t h = (ground (arith, h), ground (arith, h))

kind_is : (c : Column) (k : ℕ) → nat_beq c.kind k ≡ true → c.kind ≡ k
kind_is c k h = (nat_beq_iff c.kind k).0 h

module _ (cell : ℕ → Cell) (k half : ℕ) (fits : 2 * half ≤ byte_range k) where
  read_int_lem :
      (x : ℕ) (rest : Bytes)
      → x < 2 * half
      → read_int cell k half (big_endian k (flip_sign half x) ++ rest) ≡ some (cell x, rest)
  read_int_lem x rest h =
      let bound = flip_sign_bound half x h in
      rw (read_big-big_endian k (flip_sign half x) rest (omega (arith, bound)))
        (rw (flip_sign_twice half x h) refl)

module _ (cell : ℕ → Cell) (k : ℕ) (f : Float) (fits : 2 * f.half ≤ byte_range k)
    (nan : is_nan f f.quiet_nan ≡ true) (bits : f.quiet_nan < 2 * f.half)
    (infinite : suc f.infinity < f.half) where
  read_float_lem :
      (x : ℕ) (rest : Bytes)
      → x < 2 * f.half
      → read_float cell k f (big_endian k (ordered_float f x) ++ rest)
        ≡ some (cell (plain_float f x), rest)
  read_float_lem x rest h =
      let bound = ordered_float_bound f nan bits infinite x h in
      let u = ordered_float f x in
      let back = unordered_float-ordered_float f nan bits infinite x h in
      let again : nat_beq (ordered_float f (unordered_float f u)) u ≡ true =
        (nat_beq_iff _ u).1
          (ap (ordered_float f) back ∙ ordered_float_plain f nan bits infinite x h) in
      rw (read_big-big_endian k u rest (omega (arith, bound))) (rw again (rw back refl))

read_string_lem :
    (cell : Bytes → Cell) (fits : Bytes → Bool) (x rest : Bytes)
    → fits x ≡ true
    → read_string cell fits (escape x ++ rest) ≡ some (cell x, rest)
read_string_lem cell fits x rest h = rw (unescape-escape x rest) (rw h refl)

read_uuid_lem : (x rest : Bytes) → length x ≡ 16 → read_uuid (x ++ rest) ≡ some (uuid x, rest)
read_uuid_lem x rest h =
    let enough : ltb (length (x ++ rest)) 16 ≡ false = ground (arith, length-append x rest, h) in
    let front : take 16 (x ++ rest) ≡ x =
      ap (λ n. take n (x ++ rest)) (sym h) ∙ take-append x rest in
    let back : drop 16 (x ++ rest) ≡ rest =
      ap (λ n. drop n (x ++ rest)) (sym h) ∙ drop-append x rest in
    rw enough (rw front (rw back refl))

read_value_text :
    (c : Column) (s : Bytes)
    → is_text_kind c.kind ≡ true
    → read_value c s ≡ read_string string (fits_text c) s
unfolding read_value
read_value_text c s h =
    let kinds : (c.kind ≡ type_text) ⊎ (c.kind ≡ type_varchar) = ground (arith, h) in
    elim kinds [ inl k ↦ rw k refl | inr k ↦ rw k refl ]

-- A value of its column's type, without its marker.
read_value-write_value :
    (c : Column) (v : Cell) (b rest : Bytes)
    → Sized v
    → write_value c v ≡ some b
    → read_value c (b ++ rest) ≡ some (plain v, rest)
unfolding write_value read_value
read_value-write_value c null b rest z h = cc
read_value-write_value c (bool true) b rest z h =
    let (t, made) = when-some _ _ b h in rw (sym made) (rw (kind_is c type_bool t) refl)
read_value-write_value c (bool false) b rest z h =
    let (t, made) = when-some _ _ b h in rw (sym made) (rw (kind_is c type_bool t) refl)
read_value-write_value c (int16 x) b rest z h =
    let (t, made) = when-some _ _ b h in
    rw (sym made)
      (rw (kind_is c type_int2 t) (read_int_lem int16 2 (2 ^ 15) (omega arith) x rest z))
read_value-write_value c (int32 x) b rest z h =
    let (t, made) = when-some _ _ b h in
    rw (sym made)
      (rw (kind_is c type_int4 t) (read_int_lem int32 4 (2 ^ 31) (omega arith) x rest z))
read_value-write_value c (int64 x) b rest z h =
    let (t, made) = when-some _ _ b h in
    rw (sym made)
      (rw (kind_is c type_int8 t) (read_int_lem int64 8 (2 ^ 63) (omega arith) x rest z))
read_value-write_value c (float32 x) b rest z h =
    let (t, made) = when-some _ _ b h in
    rw (sym made) (
      rw (kind_is c type_float4 t)
        (read_float_lem float32 4 float_4 (omega arith) refl (omega arith) (omega arith) x rest z))
read_value-write_value c (float64 x) b rest z h =
    let (t, made) = when-some _ _ b h in
    rw (sym made) (
      rw (kind_is c type_float8 t)
        (read_float_lem float64 8 float_8 (omega arith) refl (omega arith) (omega arith) x rest z))
read_value-write_value c (numeric x) b rest z h =
    let k : c.kind ≡ type_numeric = kind_is c type_numeric (ground (arith, h)) in
    let wrote : encode_numeric x ≡ some b = ground (arith, h) in
    rw k (rw (decode_numeric-encode_numeric x b rest wrote) refl)
read_value-write_value c (string x) b rest z h =
    let (t, made) = when-some _ _ b h in
    let fits : fits_text c x ≡ true = ground (arith, t) in
    rw (sym made) (
      read_value_text c (escape x ++ rest) (ground (arith, t))
      ∙ read_string_lem string (fits_text c) x rest fits)
read_value-write_value c (bytea x) b rest z h =
    let (t, made) = when-some _ _ b h in
    rw (sym made) (rw (kind_is c type_bytea t) (read_string_lem bytea (λ s. true) x rest refl))
read_value-write_value c (date x) b rest z h =
    let (t, made) = when-some _ _ b h in
    rw (sym made) (rw (kind_is c type_date t) (read_int_lem date 4 (2 ^ 31) (omega arith) x rest z))
read_value-write_value c (timestamp x) b rest z h =
    let (t, made) = when-some _ _ b h in
    rw (sym made)
      (rw (kind_is c type_timestamp t) (read_int_lem timestamp 8 (2 ^ 63) (omega arith) x rest z))
read_value-write_value c (timestamptz x) b rest z h =
    let (t, made) = when-some _ _ b h in
    rw (sym made) (
      rw (kind_is c type_timestamptz t)
        (read_int_lem timestamptz 8 (2 ^ 63) (omega arith) x rest z))
read_value-write_value c (uuid x) b rest z h =
    let (t, made) = when-some _ _ b h in
    rw (sym made) (rw (kind_is c type_uuid t) (read_uuid_lem x rest z))
read_value-write_value c (jsonb x) b rest z h =
    let (t, made) = when-some _ _ b h in
    rw (sym made) (
      rw (kind_is c type_jsonb (ground (arith, t)))
        (read_string_lem jsonb is_jsonb x rest (ground (arith, t))))

decode_value :
    (c : Column) (v : Cell) (b rest : Bytes)
    → Sized v
    → write_value c v >>= bounded_cell ≡ some b
    → decode_cell c (b ++ rest) ≡ some (plain v, rest)
unfolding decode_cell
decode_value c v b rest z h =
    let (t, wrote, k) = bind-some (write_value c v) bounded_cell h in
    let made : 0x01 ∷ t ≡ b = ground (arith, k) in
    rw (sym made) (read_value-write_value c v t rest z wrote)

pub is_null_eq : (v : Cell) → is_null v ≡ true → v ≡ null
is_null_eq null e = refl
is_null_eq _ e = cc

decode_null :
    (c : Column) (b rest : Bytes)
    → (if c.nullable then some (0x00 ∷ []) else none) ≡ some b
    → decode_cell c (b ++ rest) ≡ some (null, rest)
unfolding decode_cell
decode_null c b rest h =
    let on : c.nullable ≡ true = ground (arith, h) in
    let made : 0x00 ∷ [] ≡ b = ground (arith, on, h) in rw (sym made) (rw on refl)

-- A cell of its Go type's size that is written is read back as it is stored, a float with one zero and one NaN, and
-- what follows it is left.
pub decode_cell-encode_cell :
    (c : Column) (v : Cell) (b rest : Bytes)
    → Sized v
    → encode_cell c v ≡ some b
    → decode_cell c (b ++ rest) ≡ some (plain v, rest)
unfolding encode_cell
decode_cell-encode_cell c v b rest z h = elim (Bool-cases (is_null v)) [
  | inr e ↦ decode_value c v b rest z (sym (rw e refl) ∙ h)
  | inl e ↦
      let stored : (if c.nullable then some (0x00 ∷ []) else none) ≡ some b = sym (rw e refl) ∙ h in
      rw (is_null_eq v e) (decode_null c b rest stored)
]
