-- ===== src/Document/Decimal.antt =====
-- model/document/json.go: numbers, read by `number` as their canonical text.
use snapshot_engine.Shared.{
  ℕ, suc, ◌+◌, ◌-◌, ◌*◌, ◌≡◌, refl, Bool, true, false, ◌&&◌, ◌||◌, Option, none, some, [], ◌∷◌,
  ◌++◌, ltb, leb, nat_beq, if◌then◌else◌, length, drop, slice, get_or, replicate, Bytes, codes,
  String,
}
use snapshot_engine.Document.Outcome.{Outcome, ok, failed, ◌>>=◌, Parser, emit, max_number_digits}

abbrev pub is_digit : ℕ → Bool
is_digit c = leb b'0' c && leb c b'9'

-- The digits in front, and what is left.
unfoldable pub digits : Bytes → Bytes × Bytes
digits [] = ([], [])
digits (c ∷ s) =
    let rest = digits s in elim (is_digit c) [ true ↦ (c ∷ rest.0, rest.1) | false ↦ ([], c ∷ s) ]

abbrev pub head_is : (ℕ → Bool) → Bytes → Bool
head_is p [] = false
head_is p (c ∷ s) = p c

unfoldable pub int_part : Bytes → Outcome (Bytes × Bytes)
int_part s =
    let (d, rest) = digits s in
    if nat_beq (length d) 0
    then failed "a number without digits"
    else if ltb 1 (length d) && nat_beq (get_or d 0 0) b'0'
    then failed "a number with a leading zero"
    else ok (d, rest)

unfoldable pub frac_part : Bytes → Outcome (Bytes × Bytes)
frac_part s =
    if head_is (nat_beq b'.') s
    then (let (d, rest) = digits (drop 1 s) in
        if nat_beq (length d) 0
        then failed "a number with no digits after the point"
        else ok (d, rest))
    else ok ([], s)

-- bytes.TrimLeft(e, "0")
abbrev pub trim_zeros : Bytes → Bytes
trim_zeros [] = []
trim_zeros (c ∷ s) = let rest = trim_zeros s in if nat_beq c b'0' then rest else c ∷ s

abbrev pub digits_value : ℕ → Bytes → ℕ
digits_value n [] = n
digits_value n (c ∷ s) = digits_value (n * 10 + (c - b'0')) s

abbrev pub is_sign : ℕ → Bool
is_sign c = nat_beq c b'+' || nat_beq c b'-'

-- The exponent: whether it is negative, and its magnitude.
unfoldable pub exp_part : Bytes → Outcome ((Bool × ℕ) × Bytes)
exp_part s =
    if head_is (λ c. nat_beq c b'e' || nat_beq c b'E') s
    then (let t = drop 1 s in
        let minus = head_is (nat_beq b'-') t in
        let (e, rest) = digits (if head_is is_sign t then drop 1 t else t) in
        if nat_beq (length e) 0
        then failed "an exponent without digits"
        else if ltb 6 (length (trim_zeros e))
        then failed "an exponent past the limit"
        else ok ((minus, digits_value 0 (trim_zeros e)), rest))
    else ok ((false, 0), s)

-- The source's `point` is `point - under`, of which one is 0.
pub record Decimal : Type 0 where
  pub all_digits : Bytes
  pub lead : ℕ
  pub sig : ℕ
  pub point : ℕ
  pub under : ℕ

abbrev pub lead_zeros : Bytes → ℕ
lead_zeros [] = 0
lead_zeros (c ∷ s) = let n = lead_zeros s in if nat_beq c b'0' then suc n else 0

-- How many digits are left where trailing zeros are not counted.
abbrev pub significant : Bytes → ℕ
significant [] = 0
significant (c ∷ s) = let n = significant s in if nat_beq n 0 && nat_beq c b'0' then 0 else suc n

unfoldable pub decimal_of : Bytes → Bytes → Bool × ℕ → Decimal
decimal_of whole frac (minus, e) =
    let ds = whole ++ frac in
    let lead = lead_zeros ds in
    let gained = length whole + (if minus then 0 else e) in
    let lost = lead + (if minus then e else 0) in
    record {
      all_digits = ds;
      lead = lead;
      sig = significant (drop lead ds);
      point = gained - lost;
      under = lost - gained;
    }

-- The length of the decimal's one spelling; none past the digits allowed on a side of the point.
unfoldable pub text_len : Decimal → Bool → Option ℕ
text_len d neg =
    let before = if nat_beq d.point 0 then 1 else d.point in
    let after =
      if nat_beq d.point 0
      then d.sig + d.under
      else if leb d.sig d.point
      then 0
      else d.sig - d.point in
    if nat_beq d.sig 0
    then some 1
    else if ltb max_number_digits before || ltb max_number_digits after
    then none
    else some (before + after + (if ltb 0 after then 1 else 0) + (if neg then 1 else 0))

abbrev pub digits_from : Decimal → ℕ → ℕ → Bytes
digits_from d i j = slice d.all_digits (d.lead + i) (d.lead + j)

unfoldable pub decimal_text : Decimal → Bool → Bytes
decimal_text d neg =
    if nat_beq d.sig 0
    then codes "0"
    else (if neg then b'-' ∷ [] else [])
      ++ (if nat_beq d.point 0
          then b'0' ∷ b'.' ∷ (replicate d.under b'0' ++ digits_from d 0 d.sig)
          else if leb d.sig d.point
          then digits_from d 0 d.sig ++ replicate (d.point - d.sig) b'0'
          else digits_from d 0 d.point ++ (b'.' ∷ digits_from d d.point d.sig))

abbrev pub past_digits : String
past_digits = "a number past 1000 digits"

-- What `number` reads: the decimal and its sign.
unfoldable pub scan_number : Bytes → Outcome ((Decimal × Bool) × Bytes)
scan_number s =
    let neg = head_is (nat_beq b'-') s in
    int_part (if neg then drop 1 s else s) >>= (λ (whole, s1).
      frac_part s1
      >>= (λ (frac, s2). exp_part s2 >>= (λ (e, s3). ok ((decimal_of whole frac e, neg), s3))))

-- The end of `number`: the length is counted before the text is built.
abbrev pub number_end : Decimal → Bool → Parser → Outcome (Bytes × Parser)
number_end d neg p = elim (text_len d neg) [
  | none ↦ failed past_digits
  | some n ↦ emit n p >>= (λ q. ok (decimal_text d neg, q))
]

unfoldable pub number_text : Parser → Outcome (Bytes × Parser)
number_text p = scan_number p.rest >>= (λ ((d, neg), s). number_end d neg (record p { rest = s }))

abbrev read_number : Bytes → Outcome (Bytes × Parser)
read_number s = number_text (record { rest = s; out = 0 })

-- -0.0120e3 is -12, and 5e-3 is 0.005.
minus_twelve :
    read_number (codes "-0.0120e3,") ≡ ok (codes "-12", record { rest = codes ","; out = 3 })
unfolding number_text scan_number int_part frac_part exp_part digits decimal_of text_len
    decimal_text emit
minus_twelve = refl

five_thousandths : read_number (codes "5e-3") ≡ ok (codes "0.005", record { rest = []; out = 5 })
unfolding number_text scan_number int_part frac_part exp_part digits decimal_of text_len
    decimal_text emit
five_thousandths = refl
