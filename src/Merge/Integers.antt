-- ===== src/Merge/Integers.antt =====
-- What merge/tree.go uses of strconv: `ParseInt` in base 10 and 64 bits, and `FormatInt`. An int64 is
-- its bit pattern.
use snapshot_engine.Shared.{
  ℕ, ◌+◌, ◌-◌, ◌*◌, ◌^◌, ◌≡◌, refl, Bool, true, false, ◌&&◌, Option, none, some, [], ◌∷◌, ltb, leb,
  nat_beq, if◌then◌else◌, Bytes, codes, itoa,
}
use snapshot_engine.Merge.Scalar.{int64_size}

unfoldable pub parse_digits : ℕ → Bytes → Option ℕ
parse_digits n [] = some n
parse_digits n (c ∷ s) =
    let rest = parse_digits (n * 10 + (c - b'0')) s in
    if leb b'0' c && leb c b'9' then rest else none

-- A magnitude of at least one digit, below 2 ^ 63, or at it where the sign is minus.
unfoldable pub parse_magnitude : Bool → Bytes → Option ℕ
parse_magnitude minus [] = none
parse_magnitude minus (c ∷ s) = elim (parse_digits 0 (c ∷ s)) [
  | none ↦ none
  | some n ↦
      if minus
      then (if leb n (2 ^ 63) then some (if nat_beq n 0 then 0 else int64_size - n) else none)
      else if ltb n (2 ^ 63)
      then some n
      else none
]

unfoldable pub parse_int : Bytes → Option ℕ
parse_int [] = none
parse_int (c ∷ s) =
    if nat_beq c b'-'
    then parse_magnitude true s
    else if nat_beq c b'+'
    then parse_magnitude false s
    else parse_magnitude false (c ∷ s)

unfoldable pub format_int : ℕ → Bytes
format_int n = if ltb n (2 ^ 63) then itoa n else b'-' ∷ itoa (int64_size - n)

minus_round : parse_int (codes "-120") ≡ some (int64_size - 120)
unfolding parse_int parse_magnitude parse_digits
minus_round = refl

minus_format : format_int (int64_size - 120) ≡ codes "-120"
unfolding format_int itoa
minus_format = refl
