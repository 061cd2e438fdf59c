-- ===== src/Document/Strings.antt =====
-- model/document/json.go: a string that `appendString` wrote is read back by `str`, whatever follows it.
use snapshot_engine.Shared.{
  ℕ, zero, suc, ◌+◌, ◌*◌, ◌/◌, ◌%◌, ◌≤◌, ◌<◌, ◌≡◌, refl, ap, ◌∙◌, true, false, inl, inr, some, [],
  ◌∷◌, ◌++◌, ltb, nat_beq, length, drop, Bytes, arith, Bool-cases,
}
use mathlib.Core.List.{append_assoc}
use snapshot_engine.Document.Runes.{rune_two, rune_three, rune_four}
use snapshot_engine.Document.Outcome.{Outcome, ok}
use snapshot_engine.Document.Text.{
  between, is_tail, is_second, rune_size, decode_rune, encode_rune, is_surrogate,
}
use snapshot_engine.Document.Quoted.{
  hex_digit, hex_value, hex4, escape, written, str_loop, escaped, string_end,
}

-- Texts, rune by rune.
pub data IsText : Bytes → Type 0 where
  done : IsText []
  one : (a : ℕ) (s : Bytes) → a < 128 → IsText s → IsText (a ∷ s)
  two :
      (a b : ℕ) (s : Bytes)
      → between 0xC2 0xDF a ≡ true
      → is_tail b ≡ true
      → IsText s
      → IsText (a ∷ b ∷ s)
  three :
      (a b c : ℕ) (s : Bytes)
      → between 0xE0 0xEF a ≡ true
      → is_second a b ≡ true
      → is_tail c ≡ true
      → IsText s
      → IsText (a ∷ b ∷ c ∷ s)
  four :
      (a b c d : ℕ) (s : Bytes)
      → between 0xF0 0xF4 a ≡ true
      → is_second a b ≡ true
      → is_tail c ≡ true
      → is_tail d ≡ true
      → IsText s
      → IsText (a ∷ b ∷ c ∷ d ∷ s)

hex_value-hex_digit : (c : ℕ) → c < 16 → hex_value (hex_digit c) ≡ some c
unfolding hex_value hex_digit
hex_value-hex_digit c h = ground arith

hex4_lem :
    (a b c d p q r t : ℕ) (s : Bytes)
    → hex_value a ≡ some p
    → hex_value b ≡ some q
    → hex_value c ≡ some r
    → hex_value d ≡ some t
    → hex4 (a ∷ b ∷ c ∷ d ∷ s) ≡ ok (p * 4096 + (q * 256 + (r * 16 + t)), s)
unfolding hex4
hex4_lem a b c d p q r t s ea eb ec ed = rw (ea, hex4) (rw (eb) (rw (ec) (rw (ed) refl)))

hex4_control :
    (c : ℕ) (t : Bytes)
    → c < 32
    → hex4 (b'0' ∷ b'0' ∷ hex_digit (c / 16) ∷ hex_digit (c % 16) ∷ t) ≡ ok (c, t)
hex4_control c t h =
    hex4_lem b'0' b'0' (hex_digit (c / 16)) (hex_digit (c % 16)) 0 0 (c / 16) (c % 16) t
      (unfold hex_value in refl) (unfold hex_value in refl)
      (hex_value-hex_digit (c / 16) (omega arith)) (hex_value-hex_digit (c % 16) (omega arith))
    ∙ ap (λ x. ok (x, t)) (omega arith)

escape_control :
    (c : ℕ) (t : Bytes)
    → c < 32
    → escape (b'u' ∷ b'0' ∷ b'0' ∷ hex_digit (c / 16) ∷ hex_digit (c % 16) ∷ t) ≡ ok (c, t)
unfolding escape
escape_control c t h =
    let e : is_surrogate c ≡ false = ground arith in rw (hex4_control c t h) (rw e refl)

encode_ascii : (c : ℕ) → c < 128 → encode_rune c ≡ c ∷ []
unfolding encode_rune
encode_ascii c h = ground arith

decode_ascii : (c : ℕ) (t : Bytes) → c < 128 → decode_rune (c ∷ t) ≡ (c, 1)
unfolding decode_rune rune_size
decode_ascii c t h = ground arith

str_loop-plain :
    (c fuel : ℕ) (t : Bytes)
    → c < 128
    → ltb c 32 ≡ false
    → nat_beq c b'"' ≡ false
    → nat_beq c b'\\' ≡ false
    → str_loop (suc fuel) (c ∷ t) ≡ written (c ∷ []) (str_loop fuel t)
unfolding str_loop
str_loop-plain c fuel t h a q b =
    rw q (rw a (rw b (rw (decode_ascii c t h) (rw (encode_ascii c h) refl))))

str_loop-escape :
    (c k fuel : ℕ) (u t : Bytes)
    → c < 128
    → escape (k ∷ u) ≡ ok (c, t)
    → str_loop (suc fuel) (b'\\' ∷ k ∷ u) ≡ written (c ∷ []) (str_loop fuel t)
unfolding str_loop
str_loop-escape c k fuel u t h e = rw e (rw (encode_ascii c h) refl)

short :
    (c m k fuel : ℕ) (t : Bytes)
    → c < 128
    → nat_beq c m ≡ true
    → escape (k ∷ t) ≡ ok (m, t)
    → str_loop (suc fuel) (b'\\' ∷ k ∷ t) ≡ written (c ∷ []) (str_loop fuel t)
short c m k fuel t h same e =
    let same' : m ≡ c = ground arith in
    str_loop-escape c k fuel t t h (e ∙ ap (λ x. ok (x, t)) same')

-- One byte of a string below 128, as it is written, is read as itself.
str_loop-escaped :
    (c fuel : ℕ) (t : Bytes)
    → c < 128
    → str_loop (suc fuel) (escaped c ++ t) ≡ written (c ∷ []) (str_loop fuel t)
unfolding escaped escape
str_loop-escaped c fuel t h = elim (Bool-cases (nat_beq c b'"')) [
  | inl e ↦ rw e (short c b'"' b'"' fuel t h e refl)
  | inr n1 ↦ elim (Bool-cases (nat_beq c b'\\')) [
    | inl e ↦ rw n1 (rw e (short c b'\\' b'\\' fuel t h e refl))
    | inr n2 ↦ elim (Bool-cases (nat_beq c 8)) [
      | inl e ↦ rw n1 (rw n2 (rw e (short c 8 b'b' fuel t h e refl)))
      | inr n3 ↦ elim (Bool-cases (nat_beq c 12)) [
        | inl e ↦ rw n1 (rw n2 (rw n3 (rw e (short c 12 b'f' fuel t h e refl))))
        | inr n4 ↦ elim (Bool-cases (nat_beq c 10)) [
          | inl e ↦ rw n1 (rw n2 (rw n3 (rw n4 (rw e (short c 10 b'n' fuel t h e refl)))))
          | inr n5 ↦ elim (Bool-cases (nat_beq c 13)) [
            | inl e ↦ rw n1 (rw n2 (rw n3 (rw n4 (rw n5 (rw e (short c 13 b'r' fuel t h e refl))))))
            | inr n6 ↦ elim (Bool-cases (nat_beq c 9)) [
              | inl e ↦
                  rw n1
                    (rw n2 (rw n3 (rw n4 (rw n5 (rw n6 (rw e (short c 9 b't' fuel t h e refl)))))))
              | inr n7 ↦ elim (Bool-cases (ltb c 32)) [
                | inl e ↦ rw n1 (
                    rw n2 (
                      rw n3 (
                        rw n4 (
                          rw n5 (
                            rw n6 (
                              rw n7 (
                                rw e (
                                  str_loop-escape c b'u' fuel _ t h
                                    (escape_control c t (ground arith))))))))))
                | inr n8 ↦ rw n1 (
                    rw n2 (
                      rw n3 (
                        rw n4
                          (rw n5 (rw n6 (rw n7 (rw n8 (str_loop-plain c fuel t h n8 n1 n2))))))))
              ]
            ]
          ]
        ]
      ]
    ]
  ]
]

str_loop-rune :
    (a n fuel : ℕ) (s u : Bytes)
    → 128 ≤ a
    → (decode_rune (a ∷ s)).1 ≡ n
    → encode_rune (decode_rune (a ∷ s)).0 ≡ u
    → str_loop (suc fuel) (a ∷ s) ≡ written u (str_loop fuel (drop n (a ∷ s)))
unfolding str_loop
str_loop-rune a n fuel s u h e k =
    let q : nat_beq a b'"' ≡ false = ground arith in
    let l : ltb a 0x20 ≡ false = ground arith in
    let b : nat_beq a b'\\' ≡ false = ground arith in rw q (rw l (rw b (rw e (rw k refl))))

pub escaped-high : (a : ℕ) → 128 ≤ a → escaped a ≡ a ∷ []
unfolding escaped
escaped-high a h = ground arith

pub high_of : (lo hi a : ℕ) → 128 ≤ lo → between lo hi a ≡ true → 128 ≤ a
high_of lo hi a h e = ground arith

pub second_high : (a b : ℕ) → is_second a b ≡ true → 128 ≤ b
second_high a b e = ground arith

written_ok :
    (u s rest : Bytes) (r : Outcome (Bytes × Bytes))
    → r ≡ ok (s, rest)
    → written u r ≡ ok (u ++ s, rest)
written_ok u s rest r e = rw e refl

module _ (rest : Bytes) where
  pub str_loop-IsText :
      {s : Bytes} (k : ℕ)
      → IsText s
      → length s ≤ k
      → str_loop (suc k) (string_end s ++ rest) ≡ ok (s, rest)
  unfolding string_end
  str_loop-IsText k done h = unfold str_loop in refl
  str_loop-IsText zero (one a s l t) h = absurd (omega arith)
  str_loop-IsText (suc k) (one a s l t) h = rw (append_assoc (escaped a) (string_end s) rest) (
      str_loop-escaped a (suc k) (string_end s ++ rest) l
      ∙ written_ok (a ∷ []) s rest _ (str_loop-IsText k t (omega arith)))
  str_loop-IsText zero (two a b s x y t) h = absurd (omega arith)
  str_loop-IsText (suc k) (two a b s x y t) h =
      let u = string_end s ++ rest in
      let r = rune_two a b u x y in
      rw (escaped-high a (high_of 0xC2 0xDF a (omega arith) x)) (
        rw (escaped-high b (high_of 0x80 0xBF b (omega arith) y)) (
          str_loop-rune a 2 (suc k) (b ∷ u) (a ∷ b ∷ []) (high_of 0xC2 0xDF a (omega arith) x) r.0
            r.1
          ∙ written_ok (a ∷ b ∷ []) s rest _ (str_loop-IsText k t (omega arith))))
  str_loop-IsText zero (three a b c s x y z t) h = absurd (omega arith)
  str_loop-IsText (suc k) (three a b c s x y z t) h =
      let u = string_end s ++ rest in
      let r = rune_three a b c u x y z in
      rw (escaped-high a (high_of 0xE0 0xEF a (omega arith) x)) (
        rw (escaped-high b (second_high a b y)) (
          rw (escaped-high c (high_of 0x80 0xBF c (omega arith) z)) (
            str_loop-rune a 3 (suc k) (b ∷ c ∷ u) (a ∷ b ∷ c ∷ [])
              (high_of 0xE0 0xEF a (omega arith) x) r.0 r.1
            ∙ written_ok (a ∷ b ∷ c ∷ []) s rest _ (str_loop-IsText k t (omega arith)))))
  str_loop-IsText zero (four a b c d s x y z w t) h = absurd (omega arith)
  str_loop-IsText (suc k) (four a b c d s x y z w t) h =
      let u = string_end s ++ rest in
      let r = rune_four a b c d u x y z w in
      rw (escaped-high a (high_of 0xF0 0xF4 a (omega arith) x)) (
        rw (escaped-high b (second_high a b y)) (
          rw (escaped-high c (high_of 0x80 0xBF c (omega arith) z)) (
            rw (escaped-high d (high_of 0x80 0xBF d (omega arith) w)) (
              str_loop-rune a 4 (suc k) (b ∷ c ∷ d ∷ u) (a ∷ b ∷ c ∷ d ∷ [])
                (high_of 0xF0 0xF4 a (omega arith) x) r.0 r.1
              ∙ written_ok (a ∷ b ∷ c ∷ d ∷ []) s rest _ (str_loop-IsText k t (omega arith))))))
