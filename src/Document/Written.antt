-- ===== src/Document/Written.antt =====
-- model/document/json.go: what `appendString` writes is UTF-8 where the string is.
use snapshot_engine.Shared.{
  ℕ, suc, ◌<◌, ◌≡◌, refl, ◌∙◌, Bool, true, [], ◌∷◌, ◌++◌, ltb, all, Bytes, arith,
}
use mathlib.Core.List.{append_assoc}
use snapshot_engine.Document.Text.{rune_size, valid_from}
use snapshot_engine.Document.Quoted.{escaped, string_end, hex_digit}
use snapshot_engine.Document.Runes.{size_two, size_three, size_four}
use snapshot_engine.Document.Strings.{
  IsText, done, one, two, three, four, escaped-high, high_of, second_high,
}
use snapshot_engine.Document.Validity.{valid_step}

abbrev pub is_ascii : ℕ → Bool
is_ascii c = ltb c 128

-- ASCII in front of a text makes no difference.
pub valid-ascii : (l t : Bytes) → all is_ascii l ≡ true → valid_from 0 (l ++ t) ≡ valid_from 0 t
valid-ascii [] t h = refl
valid-ascii (c ∷ l) t h =
    let size : rune_size (c ∷ (l ++ t)) ≡ 1 = unfold rune_size in ground arith in
    valid_step c 0 (l ++ t) size ∙ valid-ascii l t (ground arith)

escaped_ascii : (c : ℕ) → c < 128 → all is_ascii (escaped c) ≡ true
unfolding escaped hex_digit
escaped_ascii c h = ground arith

skip_one : (k b : ℕ) (u : Bytes) → valid_from (suc k) (b ∷ u) ≡ valid_from k u
unfolding valid_from
skip_one k b u = refl

-- A string's bytes and its closing quote, in front of a text.
pub valid-string_end :
    {s : Bytes} (t : Bytes) → IsText s → valid_from 0 (string_end s ++ t) ≡ valid_from 0 t
unfolding string_end
valid-string_end t done = valid-ascii (b'"' ∷ []) t refl
valid-string_end t (one a s l x) =
    rw (append_assoc (escaped a) (string_end s) t)
      (valid-ascii (escaped a) (string_end s ++ t) (escaped_ascii a l) ∙ valid-string_end t x)
valid-string_end t (two a b s x y z) =
    let u = string_end s ++ t in
    rw (escaped-high a (high_of 0xC2 0xDF a (omega arith) x)) (
      rw (escaped-high b (high_of 0x80 0xBF b (omega arith) y))
        (valid_step a 1 (b ∷ u) (size_two a b 0 0 u x y) ∙ skip_one 0 b u ∙ valid-string_end t z))
valid-string_end t (three a b c s x y z w) =
    let u = string_end s ++ t in
    rw (escaped-high a (high_of 0xE0 0xEF a (omega arith) x)) (
      rw (escaped-high b (second_high a b y)) (
        rw (escaped-high c (high_of 0x80 0xBF c (omega arith) z)) (
          valid_step a 2 (b ∷ c ∷ u) (size_three a b c 0 u x y z)
          ∙ skip_one 1 b (c ∷ u)
          ∙ skip_one 0 c u
          ∙ valid-string_end t w)))
valid-string_end t (four a b c d s x y z w v) =
    let u = string_end s ++ t in
    rw (escaped-high a (high_of 0xF0 0xF4 a (omega arith) x)) (
      rw (escaped-high b (second_high a b y)) (
        rw (escaped-high c (high_of 0x80 0xBF c (omega arith) z)) (
          rw (escaped-high d (high_of 0x80 0xBF d (omega arith) w)) (
            valid_step a 3 (b ∷ c ∷ d ∷ u) (size_four a b c d u x y z w)
            ∙ skip_one 2 b (c ∷ d ∷ u)
            ∙ skip_one 1 c (d ∷ u)
            ∙ skip_one 0 d u
            ∙ valid-string_end t v))))
