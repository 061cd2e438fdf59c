-- ===== src/Table/CellOrder.antt =====
-- model/table/cell.go: the bytes of two cells are in the order of their values, whatever follows them.
use snapshot_engine.Shared.{
  ℕ, suc, ◌*◌, ◌^◌, ◌≤◌, ◌<◌, ◌≡◌, refl, sym, ◌∙◌, Bool, true, false, not, ◌&&◌, ◌||◌, inl, inr,
  some, [], ◌∷◌, ◌++◌, nat_beq, if◌then◌else◌, Bytes, bytes_lt, arith, Bool-cases,
}
use snapshot_engine.Table.Schema.{Column, type_text, type_varchar}
use snapshot_engine.Table.Ordered.{
  byte_range, big_endian, flip_sign, Float, float_4, float_8, is_nan, ordered_float,
}
use snapshot_engine.Table.Pieces.{flip_sign_bound, ordered_float_bound}
use snapshot_engine.Table.Numerals.{bind-some}
use snapshot_engine.Table.Cell.{
  Cell, null, bool, int16, int32, int64, float32, float64, numeric, string, bytea, date, timestamp,
  timestamptz, uuid, jsonb, write_value, bounded_cell, is_null, encode_cell,
}
use snapshot_engine.Table.CellRoundTrip.{Sized, when-some, is_null_eq}
use snapshot_engine.Table.Precedes.{cell_lt, int_lt, float_lt}
use snapshot_engine.Table.Lexical.{
  Decides, cons-Decides, big_endian-Decides, flip_sign-lt, ordered_float-lt, escape-Decides,
  fixed-Decides,
}

abbrev pub is_numeric : Cell → Bool
is_numeric (numeric x) = true
is_numeric _ = false

-- The Go type of a cell, and that of a column's cells.
abbrev pub go_type : Cell → ℕ
go_type null = 0
go_type (bool x) = 1
go_type (int16 x) = 2
go_type (int32 x) = 3
go_type (int64 x) = 4
go_type (float32 x) = 5
go_type (float64 x) = 6
go_type (numeric x) = 7
go_type (string x) = 8
go_type (bytea x) = 10
go_type (date x) = 11
go_type (timestamp x) = 12
go_type (timestamptz x) = 13
go_type (uuid x) = 14
go_type (jsonb x) = 15

abbrev pub held_type : ℕ → ℕ
held_type k = if nat_beq k type_varchar then type_text else k

write_value-go_type :
    (c : Column) (v : Cell) (b : Bytes) → write_value c v ≡ some b → go_type v ≡ held_type c.kind
unfolding write_value
write_value-go_type c null b h = cc
write_value-go_type c (bool true) b h = ground (arith, h)
write_value-go_type c (bool false) b h = ground (arith, h)
write_value-go_type c (string x) b h = ground (arith, (when-some _ _ b h).0)
write_value-go_type c (jsonb x) b h = ground (arith, (when-some _ _ b h).0)
write_value-go_type c _ b h = ground (arith, h)

module _ (k half x y : ℕ) (fits : 2 * half ≤ byte_range k) (h : x < 2 * half)
    (j : y < 2 * half) where
  int-Decides :
      Decides
        (int_lt half x y)
        (int_lt half y x)
        (big_endian k (flip_sign half x))
        (big_endian k (flip_sign half y))
  int-Decides r s =
      let bx = flip_sign_bound half x h in
      let by' = flip_sign_bound half y j in
      rw⁻¹ (flip_sign-lt half x y h j) (
        rw⁻¹ (flip_sign-lt half y x j h) (
          big_endian-Decides k (flip_sign half x) (flip_sign half y) (omega (arith, bx))
            (omega (arith, by')) r s))

module _ (k : ℕ) (f : Float) (fits : 2 * f.half ≤ byte_range k) (nan : is_nan f f.quiet_nan ≡ true)
    (bits : f.quiet_nan < 2 * f.half) (infinite : suc f.infinity < f.half) (x y : ℕ)
    (h : x < 2 * f.half) (j : y < 2 * f.half) where
  float-Decides :
      Decides
        (float_lt f x y)
        (float_lt f y x)
        (big_endian k (ordered_float f x))
        (big_endian k (ordered_float f y))
  float-Decides r s =
      let bx = ordered_float_bound f nan bits infinite x h in
      let by' = ordered_float_bound f nan bits infinite y j in
      rw⁻¹ (ordered_float-lt f nan bits infinite x y h j) (
        rw⁻¹ (ordered_float-lt f nan bits infinite y x j h) (
          big_endian-Decides k (ordered_float f x) (ordered_float f y) (omega (arith, bx))
            (omega (arith, by')) r s))

bool-Decides :
    (x y : Bool)
    → Decides (not x && y) (not y && x) ((if x then 1 else 0) ∷ []) ((if y then 1 else 0) ∷ [])
bool-Decides true true r s = refl
bool-Decides true false r s = refl
bool-Decides false true r s = refl
bool-Decides false false r s = refl

Decides-eq :
    (l g : Bool) (a a' b b' : Bytes) → a ≡ a' → b ≡ b' → Decides l g a b → Decides l g a' b'
Decides-eq l g a a' b b' e e' d r s = rw⁻¹ e (rw⁻¹ e' (d r s))

-- Two values of one column.
write_value-Decides :
    (c : Column) (v w : Cell) (a b : Bytes)
    → go_type v ≡ go_type w
    → Sized v
    → Sized w
    → is_numeric v ≡ false
    → write_value c v ≡ some a
    → write_value c w ≡ some b
    → Decides (cell_lt v w) (cell_lt w v) a b
unfolding write_value
write_value-Decides c null w a b t z z' n h k = cc
write_value-Decides c (bool x) (bool y) a b t z z' n h k =
    Decides-eq _ _ _ a _ b (when-some _ _ a h).1 (when-some _ _ b k).1 (bool-Decides x y)
write_value-Decides c (int16 x) (int16 y) a b t z z' n h k =
    Decides-eq _ _ _ a _ b (when-some _ _ a h).1 (when-some _ _ b k).1
      (int-Decides 2 (2 ^ 15) x y (omega arith) z z')
write_value-Decides c (int32 x) (int32 y) a b t z z' n h k =
    Decides-eq _ _ _ a _ b (when-some _ _ a h).1 (when-some _ _ b k).1
      (int-Decides 4 (2 ^ 31) x y (omega arith) z z')
write_value-Decides c (int64 x) (int64 y) a b t z z' n h k =
    Decides-eq _ _ _ a _ b (when-some _ _ a h).1 (when-some _ _ b k).1
      (int-Decides 8 (2 ^ 63) x y (omega arith) z z')
write_value-Decides c (float32 x) (float32 y) a b t z z' n h k =
    Decides-eq _ _ _ a _ b (when-some _ _ a h).1 (when-some _ _ b k).1
      (float-Decides 4 float_4 (omega arith) refl (omega arith) (omega arith) x y z z')
write_value-Decides c (float64 x) (float64 y) a b t z z' n h k =
    Decides-eq _ _ _ a _ b (when-some _ _ a h).1 (when-some _ _ b k).1
      (float-Decides 8 float_8 (omega arith) refl (omega arith) (omega arith) x y z z')
write_value-Decides c (numeric x) w a b t z z' n h k = cc
write_value-Decides c (string x) (string y) a b t z z' n h k =
    Decides-eq _ _ _ a _ b (when-some _ _ a h).1 (when-some _ _ b k).1 (escape-Decides x y)
write_value-Decides c (bytea x) (bytea y) a b t z z' n h k =
    Decides-eq _ _ _ a _ b (when-some _ _ a h).1 (when-some _ _ b k).1 (escape-Decides x y)
write_value-Decides c (date x) (date y) a b t z z' n h k =
    Decides-eq _ _ _ a _ b (when-some _ _ a h).1 (when-some _ _ b k).1
      (int-Decides 4 (2 ^ 31) x y (omega arith) z z')
write_value-Decides c (timestamp x) (timestamp y) a b t z z' n h k =
    Decides-eq _ _ _ a _ b (when-some _ _ a h).1 (when-some _ _ b k).1
      (int-Decides 8 (2 ^ 63) x y (omega arith) z z')
write_value-Decides c (timestamptz x) (timestamptz y) a b t z z' n h k =
    Decides-eq _ _ _ a _ b (when-some _ _ a h).1 (when-some _ _ b k).1
      (int-Decides 8 (2 ^ 63) x y (omega arith) z z')
write_value-Decides c (uuid x) (uuid y) a b t z z' n h k =
    Decides-eq _ _ _ a _ b (when-some _ _ a h).1 (when-some _ _ b k).1
      (fixed-Decides x y (z ∙ sym z'))
write_value-Decides c (jsonb x) (jsonb y) a b t z z' n h k =
    Decides-eq _ _ _ a _ b (when-some _ _ a h).1 (when-some _ _ b k).1 (escape-Decides x y)
write_value-Decides c _ _ a b t z z' n h k = absurd (omega (arith, t))

null_first : (w : Cell) → is_null w ≡ false → (cell_lt null w ≡ true) × (cell_lt w null ≡ false)
null_first null e = cc
null_first _ e = (refl, refl)

-- What is stored for NULL, and for a value.
stored_null :
    (c : Column) (v : Cell) (a : Bytes)
    → is_null v ≡ true
    → encode_cell c v ≡ some a
    → (v ≡ null) × (0x00 ∷ [] ≡ a)
unfolding encode_cell
stored_null c v a e h = (is_null_eq v e, ground (arith, e, h))

stored_value :
    (c : Column) (v : Cell) (a : Bytes)
    → is_null v ≡ false
    → encode_cell c v ≡ some a
    → (t : Bytes) × (write_value c v ≡ some t) × (0x01 ∷ t ≡ a)
unfolding encode_cell
stored_value c v a e h =
    let (t, wrote, k) = bind-some (write_value c v) bounded_cell (sym (rw e refl) ∙ h) in
    (t, wrote, ground (arith, k))

-- Of two cells of one column, none a numeric, that are written, the bytes are in the cells' order whatever follows; of
-- cells of which neither is first, what follows decides.
pub encode_cell-cell_lt :
    (c : Column) (v w : Cell) (a b r s : Bytes)
    → Sized v
    → Sized w
    → is_numeric v ≡ false
    → encode_cell c v ≡ some a
    → encode_cell c w ≡ some b
    → bytes_lt (a ++ r) (b ++ s) ≡ (cell_lt v w || (not (cell_lt w v) && bytes_lt r s))
encode_cell-cell_lt c v w a b r s z z' n h k = elim (Bool-cases (is_null v)) [
  | inl e ↦
      let (nv, sv) = stored_null c v a e h in
      elim (Bool-cases (is_null w)) [
        | inl e' ↦ let (nw, sw) = stored_null c w b e' k in rw nv (rw nw (rw⁻¹ sv (rw⁻¹ sw refl)))
        | inr e' ↦
            let (t', wrote', sw) = stored_value c w b e' k in
            let (first, after) = null_first w e' in rw nv (rw first (rw⁻¹ sv (rw⁻¹ sw refl)))
      ]
  | inr e ↦
      let (t, wrote, sv) = stored_value c v a e h in
      elim (Bool-cases (is_null w)) [
        | inl e' ↦
            let (nw, sw) = stored_null c w b e' k in
            let (first, after) = null_first v e in
            rw nw (rw first (rw after (rw⁻¹ sv (rw⁻¹ sw refl))))
        | inr e' ↦
            let (t', wrote', sw) = stored_value c w b e' k in
            let same = write_value-go_type c v t wrote ∙ sym (write_value-go_type c w t' wrote') in
            let value = write_value-Decides c v w t t' same z z' n wrote wrote' in
            Decides-eq _ _ (0x01 ∷ t) a (0x01 ∷ t') b sv sw (cons-Decides 0x01 _ _ t t' value) r s
      ]
]
