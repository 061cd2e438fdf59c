-- ===== src/Document/Text.antt =====
-- What model/document/ uses of Go's unicode packages: `utf8.Valid`, `utf8.DecodeRune`, the bytes that
-- `strings.Builder.WriteRune` adds, and `utf16.IsSurrogate` and `DecodeRune`.
use snapshot_engine.Shared.{
  ℕ, zero, suc, ◌+◌, ◌-◌, ◌*◌, ◌/◌, ◌%◌, Bool, true, false, ◌&&◌, ◌||◌, [], ◌∷◌, ltb, leb, nat_beq,
  if◌then◌else◌, get_or, Bytes,
}

abbrev pub between : ℕ → ℕ → ℕ → Bool
between lo hi c = leb lo c && leb c hi

abbrev pub is_tail : ℕ → Bool
is_tail = between 0x80 0xBF

-- The bytes that may come second after a first byte of a sequence of three or four.
abbrev pub is_second : ℕ → ℕ → Bool
is_second a b =
    if nat_beq a 0xE0
    then between 0xA0 0xBF b
    else if nat_beq a 0xED
    then between 0x80 0x9F b
    else if nat_beq a 0xF0
    then between 0x90 0xBF b
    else if nat_beq a 0xF4
    then between 0x80 0x8F b
    else is_tail b

-- The length of the sequence at the front; 0 where it is not one.
unfoldable pub rune_size : Bytes → ℕ
rune_size [] = 0
rune_size (a ∷ s) =
    if ltb a 0x80
    then 1
    else if between 0xC2 0xDF a && is_tail (get_or s 0 0)
    then 2
    else if between 0xE0 0xEF a && (is_second a (get_or s 0 0) && is_tail (get_or s 1 0))
    then 3
    else if between 0xF0 0xF4 a
        && (is_second a (get_or s 0 0) && (is_tail (get_or s 1 0) && is_tail (get_or s 2 0)))
    then 4
    else 0

-- The first number is how many bytes of a sequence that was looked at are still to come.
unfoldable pub valid_from : ℕ → Bytes → Bool
valid_from (suc k) [] = false
valid_from zero [] = true
valid_from (suc k) (c ∷ s) = valid_from k s
valid_from zero (c ∷ s) =
    let rest = valid_from (rune_size (c ∷ s) - 1) s in
    if nat_beq (rune_size (c ∷ s)) 0 then false else rest

abbrev pub utf8_valid : Bytes → Bool
utf8_valid = valid_from 0

abbrev pub rune_error : ℕ
rune_error = 0xFFFD

-- The rune at the front and how many bytes it takes; a sequence that is not one is an error of one byte.
unfoldable pub decode_rune : Bytes → ℕ × ℕ
decode_rune s =
    let a = get_or s 0 0 in
    let b = get_or s 1 0 % 64 in
    let c = get_or s 2 0 % 64 in
    let d = get_or s 3 0 % 64 in
    let n = rune_size s in
    if nat_beq n 1
    then (a, 1)
    else if nat_beq n 2
    then ((a % 32) * 64 + b, 2)
    else if nat_beq n 3
    then ((a % 16) * 4096 + (b * 64 + c), 3)
    else if nat_beq n 4
    then ((a % 8) * 262144 + (b * 4096 + (c * 64 + d)), 4)
    else (rune_error, 1)

abbrev pub is_surrogate : ℕ → Bool
is_surrogate = between 0xD800 0xDFFF

abbrev pub rune_bytes : ℕ → Bytes
rune_bytes r =
    if ltb r 0x80
    then r ∷ []
    else if ltb r 0x800
    then (0xC0 + r / 64) ∷ (0x80 + r % 64) ∷ []
    else if ltb r 0x10000
    then (0xE0 + r / 4096) ∷ (0x80 + r / 64 % 64) ∷ (0x80 + r % 64) ∷ []
    else (0xF0 + r / 262144) ∷ (0x80 + r / 4096 % 64) ∷ (0x80 + r / 64 % 64) ∷ (0x80 + r % 64) ∷ []

unfoldable pub encode_rune : ℕ → Bytes
encode_rune r = if is_surrogate r || ltb 0x10FFFF r then rune_bytes rune_error else rune_bytes r

-- The rune of a high and a low surrogate.
abbrev pub join_surrogates : ℕ → ℕ → ℕ
join_surrogates high low = ((high - 0xD800) * 1024 + (low - 0xDC00)) + 0x10000
