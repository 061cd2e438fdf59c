-- ===== src/Table/Pieces.antt =====
-- model/table/cell.go: each piece of a cell is read back from what is written, whatever follows.
use snapshot_engine.Shared.{
  ℕ, zero, suc, ◌*◌, ◌%◌, ◌<◌, ◌≡◌, refl, ap, ◌∙◌, true, false, inl, inr, some, [], ◌∷◌, ◌++◌,
  nat_beq, if◌then◌else◌, Bytes, length, arith, Bool-cases,
}
use native.Mathlib.Nat.{mod-lt, div-add-mod'}
use snapshot_engine.Table.Ordered.{
  byte_range, big_endian, read_big, flip_sign, Float, magnitude, is_nan, ordered_float,
  unordered_float, escape, cons_byte, unescape,
}

pub byte_range_pos : (k : ℕ) → 0 < byte_range k
byte_range_pos zero = omega arith
byte_range_pos (suc k) = omega (arith, byte_range_pos k)

pub read_big-big_endian :
    (k n : ℕ) (rest : Bytes)
    → n < byte_range k
    → read_big k (big_endian k n ++ rest) ≡ some (n, rest)
unfolding read_big big_endian
read_big-big_endian zero n rest h = ap (λ x. some (x, rest)) (omega arith)
read_big-big_endian (suc k) n rest h =
    rw (read_big-big_endian k (n % byte_range k) rest (mod-lt n (byte_range_pos k)))
      (ap (λ x. some (x, rest)) (div-add-mod' n (byte_range k)))

pub length-big_endian : (k n : ℕ) → length (big_endian k n) ≡ k
unfolding big_endian
length-big_endian zero n = refl
length-big_endian (suc k) n = ap suc (length-big_endian k (n % byte_range k))

pub flip_sign_twice : (half n : ℕ) → n < 2 * half → flip_sign half (flip_sign half n) ≡ n
flip_sign_twice half n h = ground arith

pub flip_sign_bound : (half n : ℕ) → n < 2 * half → flip_sign half n < 2 * half
flip_sign_bound half n h = ground arith

unescape_step :
    (c : ℕ) (s : Bytes) → nat_beq c 0 ≡ false → unescape (c ∷ s) ≡ cons_byte c (unescape s)
unfolding unescape
unescape_step c [] e = refl
unescape_step c (d ∷ s) e = rw (e, unescape) refl

unescape_zero : (s : Bytes) → unescape (0 ∷ (0xFF ∷ s)) ≡ cons_byte 0 (unescape s)
unfolding unescape
unescape_zero s = refl

pub unescape-escape : (s rest : Bytes) → unescape (escape s ++ rest) ≡ some (s, rest)
unfolding escape
unescape-escape [] rest = unfold unescape in refl
unescape-escape (c ∷ s) rest = elim (Bool-cases (nat_beq c 0)) [
  | inl e ↦
      let same : 0 ≡ c = ground arith in
      rw e (
        unescape_zero (escape s ++ rest)
        ∙ rw (unescape-escape s rest) (ap (λ x. some (x ∷ s, rest)) same))
  | inr e ↦ rw e (unescape_step c (escape s ++ rest) e ∙ rw (unescape-escape s rest) refl)
]

-- A float with one spelling of zero and one of NaN.
abbrev pub plain_float : Float → ℕ → ℕ
plain_float f u = if is_nan f u then f.quiet_nan else if nat_beq (magnitude f u) 0 then 0 else u

module _ (f : Float) (nan : is_nan f f.quiet_nan ≡ true) (bits : f.quiet_nan < 2 * f.half)
    (infinite : suc f.infinity < f.half) where
  pub unordered_float-ordered_float :
      (u : ℕ) → u < 2 * f.half → unordered_float f (ordered_float f u) ≡ plain_float f u
  unfolding ordered_float unordered_float
  unordered_float-ordered_float u h = ground arith

  pub ordered_float_plain :
      (u : ℕ) → u < 2 * f.half → ordered_float f (plain_float f u) ≡ ordered_float f u
  unfolding ordered_float
  ordered_float_plain u h = ground (arith, nan)

  pub ordered_float_bound : (u : ℕ) → u < 2 * f.half → ordered_float f u < 2 * f.half
  unfolding ordered_float
  ordered_float_bound u h = ground arith
