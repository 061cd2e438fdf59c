-- ===== src/Table/Numeric.antt =====
-- model/table/cell.go: numerics. An exponent is how far it is above zero and how far below, of which
-- one is zero.
use snapshot_engine.Shared.{
  ℕ, suc, ◌+◌, ◌-◌, ◌*◌, ◌^◌, Bool, true, false, not, ◌&&◌, ◌||◌, Option, none, some, [], ◌∷◌, ◌++◌,
  ltb, leb, nat_beq, if◌then◌else◌, Bytes, length, take, drop, replicate, is_some, ◌==◌,
  bytes_comparable,
}
use snapshot_engine.Table.Catalog.{◌>>=◌}
use snapshot_engine.Table.Ordered.{big_endian, read_big}

abbrev pub max_numeric_len : ℕ
max_numeric_len = 1000

abbrev pub max_numeric_digs : ℕ
max_numeric_digs = 1000

abbrev pub max_exponent : ℕ
max_exponent = 999999

pub record Exponent : Type 0 where
  pub above : ℕ
  pub below : ℕ

-- a - b
abbrev pub minus : ℕ → ℕ → Exponent
minus a b = record { above = a - b; below = b - a }

-- A numeric is 0.d1d2... times 10 to its exponent.
pub record Numeral : Type 0 where
  pub neg : Bool
  pub digits : Bytes
  pub exp : Exponent

abbrev pub is_digit : ℕ → Bool
is_digit c = leb 48 c && leb c 57

-- The value of what is left of an exponent, after those read.
unfoldable pub exponent_value : ℕ → Bytes → Option ℕ
exponent_value e [] = some e
exponent_value e (c ∷ s) =
    let next = e * 10 + (c - 48) in
    let rest = exponent_value next s in
    if not (is_digit c) then none else if ltb max_exponent next then none else rest

abbrev pub exponent_digits : Bytes → Option ℕ
exponent_digits [] = none
exponent_digits (c ∷ s) = exponent_value 0 (c ∷ s)

unfoldable pub parse_exponent : Bytes → Option Exponent
parse_exponent [] = none
parse_exponent (c ∷ s) =
    if nat_beq c b'-'
    then exponent_digits s >>= (λ e. some (minus 0 e))
    else exponent_value 0 (c ∷ s) >>= (λ e. some (minus e 0))

-- The digits that are left, where the point was or is, and the exponent; n digits were read.
pub record Mantissa : Type 0 where
  pub mant : Bytes
  pub point : Option ℕ
  pub written : Exponent

abbrev pub with_digit : ℕ → Mantissa → Mantissa
with_digit c m = record m { mant = (c - 48) ∷ m.mant }

-- The end of a mantissa.
abbrev pub no_more : Option ℕ → Exponent → Mantissa
no_more point e = record { mant = []; point = point; written = e }

unfoldable pub mantissa : Option ℕ → ℕ → Bytes → Option Mantissa
mantissa point n [] = some (no_more point (minus 0 0))
mantissa point n (c ∷ s) =
    let rest =
      mantissa (if is_digit c then point else some n) (if is_digit c then suc n else n) s in
    if is_digit c
    then rest >>= (λ m. some (with_digit c m))
    else if nat_beq c b'.' && not (is_some point)
    then rest
    else if (nat_beq c b'e' || nat_beq c b'E') && ltb 0 n
    then parse_exponent s >>= (λ e. some (no_more point e))
    else none

abbrev pub zeros_before : Bytes → ℕ
zeros_before [] = 0
zeros_before (d ∷ ds) = let rest = zeros_before ds in if nat_beq d 0 then suc rest else 0

abbrev pub trim_zeros : Bytes → Bytes
trim_zeros [] = []
trim_zeros (d ∷ ds) =
    let rest = trim_zeros ds in if nat_beq (length rest) 0 && nat_beq d 0 then [] else d ∷ rest

abbrev pub zero_numeral : Numeral
zero_numeral = record { neg = false; digits = []; exp = minus 0 0 }

-- The point is past `at` digits, `lead` of which are the zeros in front.
abbrev pub scaled : Bool → Mantissa → Bytes → Numeral
scaled neg m ds =
    let at : ℕ = elim m.point [ none ↦ length m.mant | some p ↦ p ] in
    record {
      neg = neg;
      digits = ds;
      exp = minus (at + m.written.above) (zeros_before m.mant + m.written.below);
    }

-- The significant digits of a mantissa, and the exponent that they have.
unfoldable pub numeral_of : Bool → Mantissa → Option Numeral
numeral_of neg m =
    let ds = trim_zeros (drop (zeros_before m.mant) m.mant) in
    if nat_beq (length ds) 0
    then some zero_numeral
    else if ltb max_numeric_digs (length ds)
    then none
    else some (scaled neg m ds)

abbrev pub has_sign : Bytes → Bool
has_sign [] = false
has_sign (c ∷ s) = nat_beq c b'-'

-- A mantissa with no digit has no numeral.
abbrev pub some_digit : Mantissa → Option Mantissa
some_digit m = if nat_beq (length m.mant) 0 then none else some m

unfoldable pub parse_decimal : Bytes → Option Numeral
parse_decimal s =
    if nat_beq (length s) 0 || ltb max_numeric_len (length s)
    then none
    else mantissa none 0 (if has_sign s then drop 1 s else s)
      >>= (λ m. some_digit m >>= (λ m'. numeral_of (has_sign s) m'))

abbrev sign_len : Bool → ℕ
sign_len neg = if neg then 1 else 0

unfoldable pub canonical_len : Bool → ℕ → Exponent → ℕ
canonical_len neg n e =
    if nat_beq e.above 0
    then sign_len neg + 2 + e.below + n
    else if leb n e.above
    then sign_len neg + e.above
    else sign_len neg + n + 1

abbrev pub digit_chars : Bytes → Bytes
digit_chars [] = []
digit_chars (d ∷ ds) = (48 + d) ∷ digit_chars ds

abbrev decimal_chars : Bytes → Exponent → Bytes
decimal_chars ds e =
    if nat_beq e.above 0
    then b'0' ∷ (b'.' ∷ (replicate e.below b'0' ++ digit_chars ds))
    else if leb (length ds) e.above
    then digit_chars ds ++ replicate (e.above - length ds) b'0'
    else digit_chars (take e.above ds) ++ (b'.' ∷ digit_chars (drop e.above ds))

unfoldable pub canonical_text : Numeral → Bytes
canonical_text n =
    if nat_beq (length n.digits) 0
    then b'0' ∷ []
    else if n.neg
    then b'-' ∷ decimal_chars n.digits n.exp
    else decimal_chars n.digits n.exp

unfoldable pub parse_numeric : Bytes → Option Bytes
parse_numeric s = parse_decimal s >>= (λ n.
    if ltb 0 (length n.digits) && ltb max_numeric_len (canonical_len n.neg (length n.digits) n.exp)
    then none
    else some (canonical_text n))

abbrev pub num_negative : ℕ
num_negative = 0x01

abbrev pub num_zero : ℕ
num_zero = 0x02

abbrev pub num_positive : ℕ
num_positive = 0x03

abbrev pub digit_bytes : Bool → Bytes → Bytes
digit_bytes neg [] = (if neg then 0xFF else 0x00) ∷ []
digit_bytes neg (d ∷ ds) = (if neg then 10 - d else d + 1) ∷ digit_bytes neg ds

-- The exponent's bits with the sign bit flipped, complemented for a negative value.
abbrev pub exponent_bits : Bool → Exponent → ℕ
exponent_bits neg e = let u = (2 ^ 31 + e.above) - e.below in if neg then 2 ^ 32 - 1 - u else u

unfoldable pub write_numeral : Numeral → Option Bytes
write_numeral n =
    if nat_beq (length n.digits) 0
    then some (num_zero ∷ [])
    else if ltb (2 ^ 31) n.exp.below || leb (2 ^ 31) n.exp.above
    then none
    else some (
        (if n.neg then num_negative else num_positive)
        ∷ (big_endian 4 (exponent_bits n.neg n.exp) ++ digit_bytes n.neg n.digits))

abbrev pub is_canonical : Bytes → Numeral → Bool
is_canonical s n =
    not (
      ltb 0 (length n.digits)
      && not (nat_beq (canonical_len n.neg (length n.digits) n.exp) (length s)))
    && (canonical_text n == s)

unfoldable pub encode_numeric : Bytes → Option Bytes
encode_numeric s = parse_decimal s >>= (λ n. if is_canonical s n then write_numeral n else none)

-- The digits up to their end, of which at most `max_numeric_digs`; n were read.
unfoldable pub read_digits : Bool → ℕ → Bytes → Option (Bytes × Bytes)
read_digits neg n [] = none
read_digits neg n (c ∷ s) =
    let rest = read_digits neg (suc n) s in
    if nat_beq c (if neg then 0xFF else 0x00)
    then some ([], s)
    else if ltb c 1 || ltb 10 c
    then none
    else if ltb max_numeric_digs (suc n)
    then none
    else rest >>= (λ (ds, t). some ((if neg then 10 - c else c - 1) ∷ ds, t))

abbrev pub ends_zero : Bytes → Bool
ends_zero [] = false
ends_zero (d ∷ []) = nat_beq d 0
ends_zero (d ∷ (e ∷ ds)) = ends_zero (e ∷ ds)

abbrev pub starts_zero : Bytes → Bool
starts_zero [] = true
starts_zero (d ∷ ds) = nat_beq d 0

unfoldable pub numeral_text : Numeral → Option Bytes
numeral_text n =
    if starts_zero n.digits || ends_zero n.digits
    then none
    else if ltb max_numeric_len (canonical_len n.neg (length n.digits) n.exp)
    then none
    else some (canonical_text n)

abbrev pub read_exponent : Bool → ℕ → Exponent
read_exponent neg e = minus (if neg then 2 ^ 32 - 1 - e else e) (2 ^ 31)

abbrev pub read_numeral : Bool → Bytes → Option (Bytes × Bytes)
read_numeral neg s = read_big 4 s >>= (λ (e, t). read_digits neg 0 t >>= (λ (ds, rest).
    numeral_text (record { neg = neg; digits = ds; exp = read_exponent neg e })
    >>= (λ x. some (x, rest))))

unfoldable pub decode_numeric : Bytes → Option (Bytes × Bytes)
decode_numeric [] = none
decode_numeric (class ∷ s) =
    let below = read_numeral true s in
    let above = read_numeral false s in
    if nat_beq class num_zero
    then some (b'0' ∷ [], s)
    else if nat_beq class num_negative
    then below
    else if nat_beq class num_positive
    then above
    else none
