-- ===== src/Document/Quoted.antt =====
-- model/document/json.go: strings, read by `str`, `escape` and `hex4` and written by `appendString`.
use snapshot_engine.Shared.{
  ℕ, zero, suc, ◌+◌, ◌-◌, ◌*◌, ◌/◌, ◌%◌, ◌≡◌, refl, true, false, not, ◌&&◌, ◌||◌, Option, none,
  some, [], ◌∷◌, ◌++◌, ltb, leb, nat_beq, if◌then◌else◌, length, drop, get_or, Bytes, codes,
}
use snapshot_engine.Document.Outcome.{Outcome, ok, failed, out_of_fuel, ◌>>=◌}
use snapshot_engine.Document.Text.{
  between, rune_size, decode_rune, encode_rune, is_surrogate, join_surrogates,
}

unfoldable pub hex_value : ℕ → Option ℕ
hex_value c =
    if between b'0' b'9' c
    then some (c - b'0')
    else if between b'a' b'f' c
    then some ((c - b'a') + 10)
    else if between b'A' b'F' c
    then some ((c - b'A') + 10)
    else none

unfoldable pub hex4 : Bytes → Outcome (ℕ × Bytes)
hex4 (a ∷ b ∷ c ∷ d ∷ s) = elim (hex_value a) [
  | none ↦ failed "a unicode escape that is not four hex digits"
  | some p ↦ elim (hex_value b) [
    | none ↦ failed "a unicode escape that is not four hex digits"
    | some q ↦ elim (hex_value c) [
      | none ↦ failed "a unicode escape that is not four hex digits"
      | some r ↦ elim (hex_value d) [
        | none ↦ failed "a unicode escape that is not four hex digits"
        | some t ↦ ok (p * 4096 + (q * 256 + (r * 16 + t)), s)
      ]
    ]
  ]
]
hex4 _ = failed "a unicode escape is cut short"

-- The second half of a surrogate pair.
unfoldable pub low_half : ℕ → Bytes → Outcome (ℕ × Bytes)
low_half r s =
    if leb 0xDC00 r || not (nat_beq (get_or s 0 0) b'\\' && nat_beq (get_or s 1 0) b'u')
    then failed "a lone surrogate"
    else hex4 (drop 2 s) >>= (λ (low, t).
      if between 0xDC00 0xDFFF low
      then ok (join_surrogates r low, t)
      else failed "a lone surrogate")

-- One escape; the backslash is read.
unfoldable pub escape : Bytes → Outcome (ℕ × Bytes)
escape [] = failed "an escape is cut short"
escape (c ∷ s) =
    if nat_beq c b'"' || (nat_beq c b'\\' || nat_beq c b'/')
    then ok (c, s)
    else if nat_beq c b'b'
    then ok (8, s)
    else if nat_beq c b'f'
    then ok (12, s)
    else if nat_beq c b'n'
    then ok (10, s)
    else if nat_beq c b'r'
    then ok (13, s)
    else if nat_beq c b't'
    then ok (9, s)
    else if nat_beq c b'u'
    then hex4 s >>= (λ (r, t). if is_surrogate r then low_half r t else ok (r, t))
    else failed "an escape that is not one"

abbrev pub written : Bytes → Outcome (Bytes × Bytes) → Outcome (Bytes × Bytes)
written b r = r >>= (λ (text, s). ok (b ++ text, s))

-- The loop of `str`, the opening quote read: the string and what is left.
unfoldable pub str_loop : ℕ → Bytes → Outcome (Bytes × Bytes)
str_loop zero s = out_of_fuel
str_loop (suc fuel) [] = failed "a string is not closed"
str_loop (suc fuel) (c ∷ s) =
    if nat_beq c b'"'
    then ok ([], s)
    else if ltb c 0x20
    then failed "a control character in a string"
    else elim (nat_beq c b'\\') [
      | true ↦ escape s >>= (λ (r, t). written (encode_rune r) (str_loop fuel t))
      | false ↦
          let (r, n) = decode_rune (c ∷ s) in
          written (encode_rune r) (str_loop fuel (drop n (c ∷ s)))
    ]

-- Each round takes a byte at least.
unfoldable pub str : Bytes → Outcome (Bytes × Bytes)
str s = str_loop (suc (length s)) s

-- hexDigits[c]
unfoldable pub hex_digit : ℕ → ℕ
hex_digit c = if ltb c 10 then b'0' + c else b'a' + (c - 10)

-- One byte of a string, as appendString writes it.
unfoldable pub escaped : ℕ → Bytes
escaped c =
    if nat_beq c b'"'
    then b'\\' ∷ b'"' ∷ []
    else if nat_beq c b'\\'
    then b'\\' ∷ b'\\' ∷ []
    else if nat_beq c 8
    then b'\\' ∷ b'b' ∷ []
    else if nat_beq c 12
    then b'\\' ∷ b'f' ∷ []
    else if nat_beq c 10
    then b'\\' ∷ b'n' ∷ []
    else if nat_beq c 13
    then b'\\' ∷ b'r' ∷ []
    else if nat_beq c 9
    then b'\\' ∷ b't' ∷ []
    else if ltb c 0x20
    then b'\\' ∷ b'u' ∷ b'0' ∷ b'0' ∷ hex_digit (c / 16) ∷ hex_digit (c % 16) ∷ []
    else c ∷ []

-- The bytes of a string and the closing quote.
unfoldable pub string_end : Bytes → Bytes
string_end [] = b'"' ∷ []
string_end (c ∷ s) = escaped c ++ string_end s

unfoldable pub append_string : Bytes → Bytes
append_string s = b'"' ∷ string_end s

unfoldable pub byte_len : ℕ → ℕ
byte_len c =
    if nat_beq c b'"'
      || (nat_beq c b'\\'
          || (nat_beq c 8 || (nat_beq c 12 || (nat_beq c 10 || (nat_beq c 13 || nat_beq c 9)))))
    then 2
    else if ltb c 0x20
    then 6
    else 1

abbrev pub bytes_len : Bytes → ℕ
bytes_len [] = 0
bytes_len (c ∷ s) = byte_len c + bytes_len s

unfoldable pub quoted_len : Bytes → ℕ
quoted_len s = 2 + bytes_len s

-- A quote, a snowman and a pair of surrogates.
str_example :
    str (codes "a\\\"\\u2603\\ud83d\\ude00\"!")
    ≡ ok (codes "a\"" ++ (0xE2 ∷ 0x98 ∷ 0x83 ∷ 0xF0 ∷ 0x9F ∷ 0x98 ∷ 0x80 ∷ []), codes "!")
unfolding str str_loop escape low_half hex4 hex_value decode_rune encode_rune rune_size
str_example = refl
