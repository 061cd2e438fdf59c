-- ===== src/Document/Runes.antt =====
-- What utf8 decodes is encoded again as the same bytes.
use snapshot_engine.Shared.{
  ℕ, ◌+◌, ◌*◌, ◌/◌, ◌%◌, ◌≤◌, ◌<◌, ◌≡◌, refl, true, false, ◌||◌, inl, inr, [], ◌∷◌, ltb, nat_beq,
  Bytes, arith, Bool-cases,
}
use snapshot_engine.Document.Text.{
  between, is_tail, is_second, rune_size, decode_rune, encode_rune, is_surrogate,
}

module _ (a b c d : ℕ) (t : Bytes) where
  pub size_two : between 0xC2 0xDF a ≡ true → is_tail b ≡ true → rune_size (a ∷ b ∷ t) ≡ 2
  unfolding rune_size
  size_two h k = ground arith

  pub size_three :
      between 0xE0 0xEF a ≡ true
      → is_second a b ≡ true
      → is_tail c ≡ true
      → rune_size (a ∷ b ∷ c ∷ t) ≡ 3
  unfolding rune_size
  size_three h k l =
      let e1 : ltb a 0x80 ≡ false = ground arith in
      let e2 : between 0xC2 0xDF a ≡ false = ground arith in rw e1 (rw e2 (rw h (rw k (rw l refl))))

  pub size_four :
      between 0xF0 0xF4 a ≡ true
      → is_second a b ≡ true
      → is_tail c ≡ true
      → is_tail d ≡ true
      → rune_size (a ∷ b ∷ c ∷ d ∷ t) ≡ 4
  unfolding rune_size
  size_four h k l m =
      let e1 : ltb a 0x80 ≡ false = ground arith in
      let e2 : between 0xC2 0xDF a ≡ false = ground arith in
      let e3 : between 0xE0 0xEF a ≡ false = ground arith in
      rw e1 (rw e2 (rw e3 (rw h (rw k (rw l (rw m refl))))))

between_le : (lo hi c : ℕ) → between lo hi c ≡ true → (lo ≤ c) × (c ≤ hi)
between_le lo hi c h = (ground arith, ground arith)

le_ltb : (a b : ℕ) → a ≤ b → ltb b a ≡ false
le_ltb a b h = ground arith

lt_ltb : (a b : ℕ) → a < b → ltb a b ≡ true
lt_ltb a b h = ground arith

-- What the tests on the second byte come to.
record IsSecond (a b : ℕ) : Type 0 where
  low : 0x80 ≤ b
  high : b ≤ 0xBF
  no_short_three : a ≡ 0xE0 → 0xA0 ≤ b
  no_surrogate : a ≡ 0xED → b ≤ 0x9F
  no_short_four : a ≡ 0xF0 → 0x90 ≤ b
  no_past : a ≡ 0xF4 → b ≤ 0x8F

is_second-IsSecond : (a b : ℕ) → is_second a b ≡ true → IsSecond a b
is_second-IsSecond a b h = record {
  low = ground arith;
  high = ground arith;
  no_short_three = λ e. ground arith;
  no_surrogate = λ e. ground arith;
  no_short_four = λ e. ground arith;
  no_past = λ e. ground arith;
}

no_surrogate_below : (r : ℕ) → r < 0xD800 → (is_surrogate r || ltb 0x10FFFF r) ≡ false
no_surrogate_below r h = ground arith

no_surrogate_above :
    (r : ℕ) → 0xDFFF < r → r ≤ 0x10FFFF → (is_surrogate r || ltb 0x10FFFF r) ≡ false
no_surrogate_above r h k = ground arith

encode_two :
    (a b : ℕ)
    → between 0xC2 0xDF a ≡ true
    → is_tail b ≡ true
    → encode_rune ((a % 32) * 64 + b % 64) ≡ a ∷ b ∷ []
unfolding encode_rune
encode_two a b h k =
    let r : ℕ = (a % 32) * 64 + b % 64 in
    let (la, ha) = between_le 0xC2 0xDF a h in
    let (lb, hb) = between_le 0x80 0xBF b k in
    let ea : 0xC0 + r / 64 ≡ a = omega arith in
    let eb : 0x80 + r % 64 ≡ b = omega arith in
    rw (no_surrogate_below r (omega arith))
      (rw (le_ltb 0x80 r (omega arith)) (rw (lt_ltb r 0x800 (omega arith)) (cc (ea, eb))))

encode_three :
    (a b c : ℕ)
    → between 0xE0 0xEF a ≡ true
    → is_second a b ≡ true
    → is_tail c ≡ true
    → encode_rune ((a % 16) * 4096 + (b % 64 * 64 + c % 64)) ≡ a ∷ b ∷ c ∷ []
unfolding encode_rune
encode_three a b c h k l =
    let r : ℕ = (a % 16) * 4096 + (b % 64 * 64 + c % 64) in
    let (la, ha) = between_le 0xE0 0xEF a h in
    let (lc, hc) = between_le 0x80 0xBF c l in
    let s = is_second-IsSecond a b k in
    let lb = s.low in
    let hb = s.high in
    let short = s.no_short_three in
    let surr = s.no_surrogate in
    let ea : 0xE0 + r / 4096 ≡ a = omega arith in
    let eb : 0x80 + r / 64 % 64 ≡ b = omega arith in
    let ec : 0x80 + r % 64 ≡ c = omega arith in
    let bound : 0x800 ≤ r = grind arith in
    let no_surr : (is_surrogate r || ltb 0x10FFFF r) ≡ false = elim (Bool-cases (ltb a 237)) [
      | inl e ↦ let a_lt : a < 237 = ground arith in no_surrogate_below r (omega arith)
      | inr e ↦ elim (Bool-cases (nat_beq a 237)) [
        | inl e' ↦
            let a_eq : a ≡ 237 = ground arith in
            let b_le : b ≤ 0x9F = surr a_eq in no_surrogate_below r (omega arith)
        | inr e' ↦
            let a_gt : 238 ≤ a = ground arith in no_surrogate_above r (omega arith) (omega arith)
      ]
    ] in
    rw no_surr (
      rw (le_ltb 0x80 r (omega arith))
        (rw (le_ltb 0x800 r bound) (rw (lt_ltb r 0x10000 (omega arith)) (cc (ea, eb, ec)))))

encode_four :
    (a b c d : ℕ)
    → between 0xF0 0xF4 a ≡ true
    → is_second a b ≡ true
    → is_tail c ≡ true
    → is_tail d ≡ true
    → encode_rune ((a % 8) * 262144 + (b % 64 * 4096 + (c % 64 * 64 + d % 64))) ≡ a ∷ b ∷ c ∷ d ∷ []
unfolding encode_rune
encode_four a b c d h k l m =
    let r : ℕ = (a % 8) * 262144 + (b % 64 * 4096 + (c % 64 * 64 + d % 64)) in
    let (la, ha) = between_le 0xF0 0xF4 a h in
    let (lc, hc) = between_le 0x80 0xBF c l in
    let (ld, hd) = between_le 0x80 0xBF d m in
    let s = is_second-IsSecond a b k in
    let lb = s.low in
    let hb = s.high in
    let short = s.no_short_four in
    let past = s.no_past in
    let ea : 0xF0 + r / 262144 ≡ a = omega arith in
    let eb : 0x80 + r / 4096 % 64 ≡ b = omega arith in
    let ec : 0x80 + r / 64 % 64 ≡ c = omega arith in
    let ed : 0x80 + r % 64 ≡ d = omega arith in
    let low : 0x10000 ≤ r = grind arith in
    let high : r ≤ 0x10FFFF = grind arith in
    rw (no_surrogate_above r (omega arith) high) (
      rw (le_ltb 0x80 r (omega arith))
        (rw (le_ltb 0x800 r (omega arith)) (rw (le_ltb 0x10000 r low) (cc (ea, eb, ec, ed)))))

-- What is read at the front is written again as it was.
pub rune_two :
    (a b : ℕ) (t : Bytes)
    → between 0xC2 0xDF a ≡ true
    → is_tail b ≡ true
    → ((decode_rune (a ∷ b ∷ t)).1 ≡ 2) × (encode_rune (decode_rune (a ∷ b ∷ t)).0 ≡ a ∷ b ∷ [])
unfolding decode_rune
rune_two a b t h k = rw (size_two a b 0 0 t h k) (refl, encode_two a b h k)

pub rune_three :
    (a b c : ℕ) (t : Bytes)
    → between 0xE0 0xEF a ≡ true
    → is_second a b ≡ true
    → is_tail c ≡ true
    → ((decode_rune (a ∷ b ∷ c ∷ t)).1 ≡ 3)
      × (encode_rune (decode_rune (a ∷ b ∷ c ∷ t)).0 ≡ a ∷ b ∷ c ∷ [])
unfolding decode_rune
rune_three a b c t h k l = rw (size_three a b c 0 t h k l) (refl, encode_three a b c h k l)

pub rune_four :
    (a b c d : ℕ) (t : Bytes)
    → between 0xF0 0xF4 a ≡ true
    → is_second a b ≡ true
    → is_tail c ≡ true
    → is_tail d ≡ true
    → ((decode_rune (a ∷ b ∷ c ∷ d ∷ t)).1 ≡ 4)
      × (encode_rune (decode_rune (a ∷ b ∷ c ∷ d ∷ t)).0 ≡ a ∷ b ∷ c ∷ d ∷ [])
unfolding decode_rune
rune_four a b c d t h k l m = rw (size_four a b c d t h k l m) (refl, encode_four a b c d h k l m)
