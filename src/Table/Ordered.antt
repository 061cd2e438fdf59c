-- ===== src/Table/Ordered.antt =====
-- model/table/cell.go: the pieces of a cell, whose byte order is the values' order: big-endian numbers with the sign
-- bit flipped, floats by their bits, and byte strings escaped. A machine number is its bit pattern.
use snapshot_engine.Shared.{
  ℕ, zero, suc, ◌+◌, ◌-◌, ◌*◌, ◌/◌, ◌%◌, ◌^◌, Bool, true, false, Option, none, some, [], ◌∷◌, ltb,
  leb, nat_beq, if◌then◌else◌, Bytes,
}
use snapshot_engine.Table.Catalog.{◌>>=◌}

-- 256 ^ k
abbrev pub byte_range : ℕ → ℕ
byte_range zero = 1
byte_range (suc k) = 256 * byte_range k

-- encoding/binary: a number of k bytes, its highest first.
unfoldable pub big_endian : ℕ → ℕ → Bytes
big_endian zero n = []
big_endian (suc k) n = n / byte_range k ∷ big_endian k (n % byte_range k)

-- k bytes off the front, as a number.
unfoldable pub read_big : ℕ → Bytes → Option (ℕ × Bytes)
read_big zero s = some (0, s)
read_big (suc k) [] = none
read_big (suc k) (b ∷ s) = read_big k s >>= (λ (n, rest). some (b * byte_range k + n, rest))

-- n ^ (1 << (w - 1)), for the half 1 << (w - 1) of a number's range.
abbrev pub flip_sign : ℕ → ℕ → ℕ
flip_sign half n = if ltb n half then n + half else n - half

-- A float's bits: the half of their range, and the bits of infinity.
pub record Float : Type 0 where
  pub half : ℕ
  pub infinity : ℕ
  pub quiet_nan : ℕ

abbrev pub float_4 : Float
float_4 = record { half = 2 ^ 31; infinity = 0x7F800000; quiet_nan = 0x7FC00000 }

abbrev pub float_8 : Float
float_8 = record { half = 2 ^ 63; infinity = 0x7FF0000000000000; quiet_nan = 0x7FF8000000000001 }

-- The bits without the sign.
abbrev pub magnitude : Float → ℕ → ℕ
magnitude f u = if ltb u f.half then u else u - f.half

abbrev pub is_nan : Float → ℕ → Bool
is_nan f u = ltb f.infinity (magnitude f u)

abbrev pub all_ones : Float → ℕ
all_ones f = 2 * f.half - 1

unfoldable pub ordered_float : Float → ℕ → ℕ
ordered_float f u =
    if is_nan f u
    then all_ones f
    else let v = if nat_beq (magnitude f u) 0 then 0 else u in
      if leb f.half v then all_ones f - v else flip_sign f.half v

unfoldable pub unordered_float : Float → ℕ → ℕ
unordered_float f u =
    if nat_beq u (all_ones f)
    then f.quiet_nan
    else if leb f.half u
    then flip_sign f.half u
    else all_ones f - u

unfoldable pub escape : Bytes → Bytes
escape [] = 0x00 ∷ 0x00 ∷ []
escape (c ∷ s) = let rest = escape s in if nat_beq c 0 then 0x00 ∷ 0xFF ∷ rest else c ∷ rest

-- A byte in front of a string that was read.
abbrev pub cons_byte : ℕ → Option (Bytes × Bytes) → Option (Bytes × Bytes)
cons_byte c none = none
cons_byte c (some (s, rest)) = some (c ∷ s, rest)

unfoldable pub unescape : Bytes → Option (Bytes × Bytes)
unescape [] = none
unescape (c ∷ []) = none
unescape (c ∷ (d ∷ s)) = elim (nat_beq c 0) [
  | false ↦ cons_byte c (unescape (d ∷ s))
  | true ↦ elim (nat_beq d 0x00) [
    | true ↦ some ([], s)
    | false ↦ elim (nat_beq d 0xFF) [ true ↦ cons_byte 0 (unescape s) | false ↦ none ]
  ]
]
