-- ===== src/Wire/Cells.antt =====
-- An instance of the interface: numbers as little-endian bytes, and as groups of seven bits.
use snapshot_engine.Shared.{
  ℕ, zero, suc, ◌+◌, ◌-◌, ◌*◌, ◌/◌, ◌%◌, ◌≤◌, ◌<◌, ◌≡◌, refl, ap, true, false, inl, inr, Option,
  none, some, [], ◌∷◌, ◌++◌, length, length-append, take-append, drop-append, take, drop, ltb, leb,
  if◌then◌else◌, Bytes, arith, Bool-cases,
}
use mathlib.Core.List.{append_assoc}
use snapshot_engine.Wire.{Wire, Laws}

-- The low bytes of a number, the lowest first.
abbrev pub low_bytes : ℕ → ℕ → Bytes
low_bytes zero n = []
low_bytes (suc k) n = n % 256 ∷ low_bytes k (n / 256)

abbrev pub read_low : ℕ → Bytes → Option (ℕ × Bytes)
read_low zero s = some (0, s)
read_low (suc k) [] = none
read_low (suc k) (b ∷ s) = elim (read_low k s) [
  | none ↦ none
  | some (n, rest) ↦ some (n * 256 + b, rest)
]

abbrev limit_of : ℕ → ℕ
limit_of zero = 1
limit_of (suc k) = limit_of k * 256

read_low-low_bytes :
    (k n : ℕ) (rest : Bytes) → n < limit_of k → read_low k (low_bytes k n ++ rest) ≡ some (n, rest)
read_low-low_bytes zero n rest h = ap (λ x. some (x, rest)) (omega arith)
read_low-low_bytes (suc k) n rest h =
    rw (read_low-low_bytes k (n / 256) rest (omega arith)) (ap (λ x. some (x, rest)) (omega arith))

unfoldable pub groups : ℕ → ℕ → Bytes
groups zero n = []
groups (suc fuel) n =
    let rest = groups fuel (n / 128) in if ltb n 128 then n ∷ [] else (n % 128 + 128) ∷ rest

unfoldable pub read_groups : Bytes → Option (ℕ × Bytes)
read_groups [] = none
read_groups (b ∷ s) =
    let more = read_groups s in
    if ltb b 128
    then some (b, s)
    else elim more [ none ↦ none | some (n, rest) ↦ some (n * 128 + (b - 128), rest) ]

read_groups-groups :
    (fuel n : ℕ) (rest : Bytes) → n < fuel → read_groups (groups fuel n ++ rest) ≡ some (n, rest)
unfolding groups read_groups
read_groups-groups zero n rest h = absurd (omega arith)
read_groups-groups (suc fuel) n rest h = elim (Bool-cases (ltb n 128)) [
  | inl e ↦ rw e (rw e refl)
  | inr e ↦
      let big : ltb (n % 128 + 128) 128 ≡ false = ground arith in
      let more : 128 ≤ n = ground arith in
      rw e (
        rw big (
          rw (read_groups-groups fuel (n / 128) rest (omega arith))
            (ap (λ x. some (x, rest)) (omega arith))))
]

unfoldable pub read_counted : ℕ → Bytes → Option (Bytes × Bytes)
read_counted limit s = elim (read_groups s) [
  | none ↦ none
  | some (n, t) ↦
      if ltb limit n then none else if leb n (length t) then some (take n t, drop n t) else none
]

unfoldable pub counted : Bytes → Bytes
counted s = groups (suc (length s)) (length s) ++ s

read_counted-counted :
    (limit : ℕ) (s rest : Bytes)
    → length s ≤ limit
    → read_counted limit (counted s ++ rest) ≡ some (s, rest)
unfolding read_counted counted
read_counted-counted limit s rest h =
    let g : Bytes = groups (suc (length s)) (length s) in
    let small : ltb limit (length s) ≡ false = ground arith in
    let fits : leb (length s) (length (s ++ rest)) ≡ true = ground (arith, length-append s rest) in
    rw (append_assoc g s rest) (
      rw (read_groups-groups (suc (length s)) (length s) (s ++ rest) (omega arith), read_counted)
        (rw small (rw fits (rw (take-append s rest) (rw (drop-append s rest) refl)))))

abbrev pub cells : Wire
cells = record {
  u8 = low_bytes 1;
  u16 = low_bytes 2;
  u32 = low_bytes 4;
  u64 = low_bytes 8;
  uvarint = λ n. groups (suc n) n;
  len_bytes = counted;
  read_u8 = read_low 1;
  read_u16 = read_low 2;
  read_u32 = read_low 4;
  read_u64 = read_low 8;
  read_uvarint = read_groups;
  read_len_bytes = read_counted;
}

pub cells-Laws : Laws cells
cells-Laws = record {
  u8_read = λ n rest h. read_low-low_bytes 1 n rest h;
  u16_read = λ n rest h. read_low-low_bytes 2 n rest h;
  u32_read = λ n rest h. read_low-low_bytes 4 n rest h;
  u64_read = λ n rest h. read_low-low_bytes 8 n rest h;
  uvarint_read = λ n rest h. read_groups-groups (suc n) n rest (omega arith);
  len_bytes_read = read_counted-counted;
}
