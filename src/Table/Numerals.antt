-- ===== src/Table/Numerals.antt =====
-- model/table/cell.go: a numeric is read back from its bytes.
use snapshot_engine.Shared.{
  ℕ, zero, suc, ◌+◌, ◌^◌, ◌≤◌, ◌<◌, ◌≡◌, refl, ap, sym, ◌∙◌, Bool, true, false, not, ◌&&◌, ◌||◌,
  ◌⊎◌, inl, inr, Option, none, some, [], ◌∷◌, ◌++◌, ltb, leb, nat_beq, if◌then◌else◌, Bytes, length,
  drop, all, is_some, arith, Bool-cases, Option-cases, bytes_comparable,
}
use mathlib.Core.Path.{subst}
use mathlib.Core.List.{append_assoc}
use snapshot_engine.Table.Catalog.{◌>>=◌}
use snapshot_engine.Table.Ordered.{byte_range, big_endian}
use snapshot_engine.Table.Pieces.{read_big-big_endian}
use snapshot_engine.Table.Numeric.{
  Exponent, minus, Numeral, is_digit, Mantissa, mantissa, with_digit, parse_exponent, zeros_before,
  trim_zeros, scaled, numeral_of, has_sign, some_digit, parse_decimal, canonical_len,
  canonical_text, num_negative, num_zero, num_positive, digit_bytes, exponent_bits, write_numeral,
  is_canonical, encode_numeric, read_digits, ends_zero, starts_zero, numeral_text, read_exponent,
  read_numeral, decode_numeric, max_numeric_digs, max_numeric_len,
}

abbrev small : Bytes → Bool
small = all (λ d. ltb d 10)

pub bind-some {ℓ κ} :
    {A : Type ℓ} {B : Type κ} (o : Option A) (f : A → Option B) {b : B}
    → o >>= f ≡ some b
    → (a : A) × (o ≡ some a) × (f a ≡ some b)
bind-some none f h = cc
bind-some (some a) f h = (a, refl, h)

mantissa-small :
    (p : Option ℕ) (n : ℕ) (s : Bytes) (m : Mantissa)
    → mantissa p n s ≡ some m
    → small m.mant ≡ true
unfolding mantissa
mantissa-small p n [] m h = ground (arith, h)
mantissa-small p n (c ∷ s) m h = elim (Bool-cases (is_digit c)) [
  | inl d ↦
      let (m', got, made) =
        bind-some (mantissa p (suc n) s) (λ x. some (with_digit c x)) (sym (rw d refl) ∙ h) in
      let rest = mantissa-small p (suc n) s m' got in ground (arith, made, rest, d)
  | inr d ↦ elim (Bool-cases (nat_beq c b'.' && not (is_some p))) [
    | inl t ↦ mantissa-small (some n) n s m (sym (rw d (rw t refl)) ∙ h)
    | inr t ↦ elim (Option-cases (parse_exponent s)) [
      | inl x ↦ ground (arith, x, t, d, h)
      | inr (e, x) ↦ ground (arith, x, t, d, h)
    ]
  ]
]

small-drop : (n : ℕ) (ds : Bytes) → small ds ≡ true → small (drop n ds) ≡ true
small-drop zero ds h = h
small-drop (suc n) [] h = refl
small-drop (suc n) (d ∷ ds) h = small-drop n ds (ground arith)

small-trim_zeros : (ds : Bytes) → small ds ≡ true → small (trim_zeros ds) ≡ true
small-trim_zeros [] h = refl
small-trim_zeros (d ∷ ds) h = ground (arith, small-trim_zeros ds)

ends_zero_cons :
    (d : ℕ) (t : Bytes)
    → ends_zero t ≡ false
    → (nat_beq (length t) 0 && nat_beq d 0) ≡ false
    → ends_zero (d ∷ t) ≡ false
ends_zero_cons d [] h k = ground arith
ends_zero_cons d (e ∷ t) h k = h

ends_zero-trim_zeros : (ds : Bytes) → ends_zero (trim_zeros ds) ≡ false
ends_zero-trim_zeros [] = refl
ends_zero-trim_zeros (d ∷ ds) =
    elim (Bool-cases (nat_beq (length (trim_zeros ds)) 0 && nat_beq d 0)) [
      | inl e ↦ rw e refl
      | inr e ↦ rw e (ends_zero_cons d (trim_zeros ds) (ends_zero-trim_zeros ds) e)
    ]

starts_zero-trim_zeros :
    (ds : Bytes)
    → (nat_beq (length (trim_zeros (drop (zeros_before ds) ds))) 0 ≡ false)
    → starts_zero (trim_zeros (drop (zeros_before ds) ds)) ≡ false
starts_zero-trim_zeros [] h = cc
starts_zero-trim_zeros (d ∷ ds) h = elim (Bool-cases (nat_beq d 0)) [
  | inl e ↦ rw e (starts_zero-trim_zeros ds (sym (rw e refl) ∙ h))
  | inr e ↦ ground (arith, e)
]

read_digits-digit_bytes :
    (neg : Bool) (n : ℕ) (ds rest : Bytes)
    → small ds ≡ true
    → n + length ds ≤ max_numeric_digs
    → read_digits neg n (digit_bytes neg ds ++ rest) ≡ some (ds, rest)
unfolding read_digits
read_digits-digit_bytes true n [] rest h k = refl
read_digits-digit_bytes false n [] rest h k = refl
read_digits-digit_bytes true n (d ∷ ds) rest h k =
    ground (arith, read_digits-digit_bytes true (suc n) ds rest (ground arith) (ground arith))
read_digits-digit_bytes false n (d ∷ ds) rest h k =
    ground (arith, read_digits-digit_bytes false (suc n) ds rest (ground arith) (ground arith))

Exponent-eq : (x y : Exponent) → x.above ≡ y.above → x.below ≡ y.below → x ≡ y
Exponent-eq x y h k = ground (arith, h, k)

read_exponent-exponent_bits :
    (neg : Bool) (e : Exponent)
    → (e.above ≡ 0) ⊎ (e.below ≡ 0)
    → e.below ≤ 2 ^ 31
    → e.above < 2 ^ 31
    → read_exponent neg (exponent_bits neg e) ≡ e
read_exponent-exponent_bits true e z h k = Exponent-eq _ e (ground arith) (ground arith)
read_exponent-exponent_bits false e z h k = Exponent-eq _ e (ground arith) (ground arith)

-- What the numeral of a text has, when it is not zero.
record IsNumeral (n : Numeral) : Type 0 where
  digits_small : small n.digits ≡ true
  starts : starts_zero n.digits ≡ false
  ends : ends_zero n.digits ≡ false
  few : length n.digits ≤ max_numeric_digs
  one_side : (n.exp.above ≡ 0) ⊎ (n.exp.below ≡ 0)

minus_one_side : (a b : ℕ) → ((minus a b).above ≡ 0) ⊎ ((minus a b).below ≡ 0)
minus_one_side a b = ground arith

numeral_of-IsNumeral :
    (neg : Bool) (m : Mantissa) (n : Numeral)
    → small m.mant ≡ true
    → numeral_of neg m ≡ some n
    → nat_beq (length n.digits) 0 ≡ false
    → IsNumeral n
unfolding numeral_of
numeral_of-IsNumeral neg m n s h z =
    let ds : Bytes = trim_zeros (drop (zeros_before m.mant) m.mant) in
    elim (Bool-cases (nat_beq (length ds) 0)) [
      | inl e ↦ ground (arith, e, h, z)
      | inr e ↦ elim (Bool-cases (ltb max_numeric_digs (length ds))) [
        | inl l ↦ ground (arith, e, l, h)
        | inr l ↦
            let made : scaled neg m ds ≡ n = ground (arith, e, l, h) in
            subst (λ x. IsNumeral x) made
              (record {
                digits_small =
                    small-trim_zeros (drop (zeros_before m.mant) m.mant)
                      (small-drop (zeros_before m.mant) m.mant s);
                starts = starts_zero-trim_zeros m.mant e;
                ends = ends_zero-trim_zeros (drop (zeros_before m.mant) m.mant);
                few = ground (arith, l);
                one_side = minus_one_side _ _;
              })
      ]
    ]

parse_decimal-IsNumeral :
    (s : Bytes) (n : Numeral)
    → parse_decimal s ≡ some n
    → nat_beq (length n.digits) 0 ≡ false
    → IsNumeral n
unfolding parse_decimal
parse_decimal-IsNumeral s n h z =
    elim (Bool-cases (nat_beq (length s) 0 || ltb max_numeric_len (length s))) [
      | inl e ↦ ground (arith, e, h)
      | inr e ↦
          let body : Bytes = if has_sign s then drop 1 s else s in
          let (m, got, made) =
            bind-some (mantissa none 0 body)
              (λ m. some_digit m >>= (λ m'. numeral_of (has_sign s) m')) (sym (rw e refl) ∙ h) in
          let some_small = mantissa-small none 0 body m got in
          elim (Bool-cases (nat_beq (length m.mant) 0)) [
            | inl t ↦ ground (arith, t, made)
            | inr t ↦ numeral_of-IsNumeral (has_sign s) m n some_small (sym (rw t refl) ∙ made) z
          ]
    ]

parse_decimal_len :
    (s : Bytes) (n : Numeral) → parse_decimal s ≡ some n → length s ≤ max_numeric_len
unfolding parse_decimal
parse_decimal_len s n h = ground (arith, h)

numeral_text-IsNumeral :
    (n : Numeral)
    → IsNumeral n
    → canonical_len n.neg (length n.digits) n.exp ≤ max_numeric_len
    → numeral_text n ≡ some (canonical_text n)
unfolding numeral_text
numeral_text-IsNumeral n is h = ground (arith, is.starts, is.ends, h)

read_numeral_lem :
    (n : Numeral) (rest : Bytes)
    → IsNumeral n
    → n.exp.below ≤ 2 ^ 31
    → n.exp.above < 2 ^ 31
    → canonical_len n.neg (length n.digits) n.exp ≤ max_numeric_len
    → read_numeral n.neg
        (big_endian 4 (exponent_bits n.neg n.exp) ++ (digit_bytes n.neg n.digits ++ rest))
      ≡ some (canonical_text n, rest)
read_numeral_lem n rest is h k l =
    let bits : exponent_bits n.neg n.exp < byte_range 4 = ground arith in
    rw (read_big-big_endian 4 (exponent_bits n.neg n.exp) (digit_bytes n.neg n.digits ++ rest) bits)
      (rw (read_digits-digit_bytes n.neg 0 n.digits rest is.digits_small (omega (arith, is.few))) (
        rw (read_exponent-exponent_bits n.neg n.exp is.one_side h k)
          (rw (numeral_text-IsNumeral n is l) refl)))

decode_zero : (rest : Bytes) → decode_numeric (num_zero ∷ rest) ≡ some (b'0' ∷ [], rest)
unfolding decode_numeric
decode_zero rest = refl

decode_sign :
    (neg : Bool) (s : Bytes)
    → decode_numeric ((if neg then num_negative else num_positive) ∷ s) ≡ read_numeral neg s
unfolding decode_numeric
decode_sign true s = refl
decode_sign false s = refl

decode_numeric-write_numeral :
    (n : Numeral) (b rest : Bytes)
    → (nat_beq (length n.digits) 0 ≡ false
        → IsNumeral n × (canonical_len n.neg (length n.digits) n.exp ≤ max_numeric_len))
    → write_numeral n ≡ some b
    → decode_numeric (b ++ rest) ≡ some (canonical_text n, rest)
unfolding write_numeral canonical_text
decode_numeric-write_numeral n b rest f h = elim (Bool-cases (nat_beq (length n.digits) 0)) [
  | inl z ↦
      let made : num_zero ∷ [] ≡ b = ground (arith, z, h) in
      rw (sym made) (decode_zero rest ∙ rw z refl)
  | inr z ↦ elim (Bool-cases (ltb (2 ^ 31) n.exp.below || leb (2 ^ 31) n.exp.above)) [
    | inl o ↦ ground (arith, z, o, h)
    | inr o ↦
        let (is, l) = f z in
        let digits = digit_bytes n.neg n.digits in
        let bits = big_endian 4 (exponent_bits n.neg n.exp) in
        let made : (if n.neg then num_negative else num_positive) ∷ (bits ++ digits) ≡ b =
          ground (arith, z, o, h) in
        rw (sym made) (
          decode_sign n.neg ((bits ++ digits) ++ rest)
          ∙ ap (read_numeral n.neg) (append_assoc bits digits rest)
          ∙ read_numeral_lem n rest is (ground (arith, o)) (ground (arith, o)) l)
  ]
]

-- A numeric that is written is read back, whatever follows.
pub decode_numeric-encode_numeric :
    (s b rest : Bytes) → encode_numeric s ≡ some b → decode_numeric (b ++ rest) ≡ some (s, rest)
unfolding encode_numeric
decode_numeric-encode_numeric s b rest h =
    let (n, got, k) =
      bind-some (parse_decimal s) (λ n. if is_canonical s n then write_numeral n else none) h in
    elim (Bool-cases (is_canonical s n)) [
      | inr c ↦ ground (arith, c, k)
      | inl c ↦
          let same : canonical_text n ≡ s =
            (bytes_comparable.eq_iff (canonical_text n) s).0 (ground (arith, c)) in
          let wrote : write_numeral n ≡ some b = ground (arith, c, k) in
          let len = parse_decimal_len s n got in
          decode_numeric-write_numeral n b rest
            (λ z. (parse_decimal-IsNumeral s n got z, ground (arith, c, z, len))) wrote
          ∙ ap (λ x. some (x, rest)) same
    ]
