-- ===== src/Document/Validity.antt =====
-- model/document/json.go: what `utf8.Valid` accepts, rune by rune, and the length and the bytes of a written string.
use snapshot_engine.Shared.{
  ℕ, zero, suc, ◌-◌, ◌≤◌, ◌<◌, ◌≡◌, refl, sym, ◌∙◌, Bool, true, false, ◌&&◌, inl, inr, [], ◌∷◌,
  ◌++◌, ltb, nat_beq, length, get_or, Bytes, arith, Bool-cases, length-append,
}
use snapshot_engine.Document.Outcome.{ok}
use snapshot_engine.Document.Text.{between, is_tail, is_second, rune_size, valid_from, utf8_valid}
use snapshot_engine.Document.Quoted.{
  str, escaped, string_end, append_string, byte_len, bytes_len, quoted_len,
}
use snapshot_engine.Document.Strings.{IsText, done, one, two, three, four, str_loop-IsText}

-- The sequence at the front of a text has one of four shapes.
pub data Front (a : ℕ) (s : Bytes) : ℕ → Type 0 where
  none_there : {n : ℕ} → n ≡ 0 → Front a s n
  ascii : {n : ℕ} → n ≡ 1 → a < 128 → Front a s n
  pair : {n : ℕ} → n ≡ 2 → between 0xC2 0xDF a ≡ true → is_tail (get_or s 0 0) ≡ true → Front a s n
  triple :
      {n : ℕ}
      → n ≡ 3
      → between 0xE0 0xEF a ≡ true
      → is_second a (get_or s 0 0) ≡ true
      → is_tail (get_or s 1 0) ≡ true
      → Front a s n
  quad :
      {n : ℕ}
      → n ≡ 4
      → between 0xF0 0xF4 a ≡ true
      → is_second a (get_or s 0 0) ≡ true
      → is_tail (get_or s 1 0) ≡ true
      → is_tail (get_or s 2 0) ≡ true
      → Front a s n

and_both : (p q : Bool) → (p && q) ≡ true → (p ≡ true) × (q ≡ true)
and_both p q e = ground arith

rune_size-Front : (a : ℕ) (s : Bytes) → Front a s (rune_size (a ∷ s))
unfolding rune_size
rune_size-Front a s = elim (Bool-cases (ltb a 0x80)) [
  | inl e ↦ ascii (rw e refl) (ground arith)
  | inr e ↦ elim (Bool-cases (between 0xC2 0xDF a && is_tail (get_or s 0 0))) [
    | inl f ↦
        let (x, y) = and_both (between 0xC2 0xDF a) (is_tail (get_or s 0 0)) f in
        pair (rw e (rw f refl)) x y
    | inr f ↦
        elim (Bool-cases
          (between 0xE0 0xEF a && (is_second a (get_or s 0 0) && is_tail (get_or s 1 0)))) [
            | inl g ↦
                let (x, g') =
                  and_both (between 0xE0 0xEF a)
                    (is_second a (get_or s 0 0) && is_tail (get_or s 1 0)) g in
                let (y, z) = and_both (is_second a (get_or s 0 0)) (is_tail (get_or s 1 0)) g' in
                triple (rw e (rw f (rw g refl))) x y z
            | inr g ↦
                elim (Bool-cases (
                  between 0xF0 0xF4 a
                  && (is_second a (get_or s 0 0)
                      && (is_tail (get_or s 1 0) && is_tail (get_or s 2 0))))) [
                        | inr h ↦ none_there (rw e (rw f (rw g (rw h refl))))
                        | inl h ↦
                            let (x, h') =
                              and_both (between 0xF0 0xF4 a)
                                (is_second a (get_or s 0 0)
                                  && (is_tail (get_or s 1 0) && is_tail (get_or s 2 0)))
                                h in
                            let (y, h'') =
                              and_both (is_second a (get_or s 0 0))
                                (is_tail (get_or s 1 0) && is_tail (get_or s 2 0)) h' in
                            let (z, w) =
                              and_both (is_tail (get_or s 1 0)) (is_tail (get_or s 2 0)) h'' in
                            quad (rw e (rw f (rw g (rw h refl)))) x y z w
                      ]
          ]
  ]
]

pub valid_step :
    (a m : ℕ) (s : Bytes) → rune_size (a ∷ s) ≡ suc m → valid_from 0 (a ∷ s) ≡ valid_from m s
unfolding valid_from
valid_step a m s e =
    let e' : suc m - 1 ≡ m = omega arith in
    let nz : nat_beq (suc m) 0 ≡ false = ground arith in rw (e, valid_from) (rw nz (rw e' refl))

valid_none : (a : ℕ) (s : Bytes) → rune_size (a ∷ s) ≡ 0 → valid_from 0 (a ∷ s) ≡ false
unfolding valid_from
valid_none a s e = rw (e, valid_from) refl

module _ (k : ℕ) (shorter : (t : Bytes) → length t ≤ k → valid_from 0 t ≡ true → IsText t) where
  pair-IsText :
      (a : ℕ) (s : Bytes)
      → length s ≤ k
      → between 0xC2 0xDF a ≡ true
      → is_tail (get_or s 0 0) ≡ true
      → valid_from 1 s ≡ true
      → IsText (a ∷ s)
  unfolding valid_from
  pair-IsText a [] h x y v = cc
  pair-IsText a (b ∷ s) h x y v = two a b s x y (shorter s (omega arith) v)

  triple-IsText :
      (a : ℕ) (s : Bytes)
      → length s ≤ k
      → between 0xE0 0xEF a ≡ true
      → is_second a (get_or s 0 0) ≡ true
      → is_tail (get_or s 1 0) ≡ true
      → valid_from 2 s ≡ true
      → IsText (a ∷ s)
  unfolding valid_from
  triple-IsText a [] h x y z v = cc
  triple-IsText a (b ∷ []) h x y z v = cc
  triple-IsText a (b ∷ c ∷ s) h x y z v = three a b c s x y z (shorter s (omega arith) v)

  quad-IsText :
      (a : ℕ) (s : Bytes)
      → length s ≤ k
      → between 0xF0 0xF4 a ≡ true
      → is_second a (get_or s 0 0) ≡ true
      → is_tail (get_or s 1 0) ≡ true
      → is_tail (get_or s 2 0) ≡ true
      → valid_from 3 s ≡ true
      → IsText (a ∷ s)
  unfolding valid_from
  quad-IsText a [] h x y z w v = cc
  quad-IsText a (b ∷ []) h x y z w v = cc
  quad-IsText a (b ∷ c ∷ []) h x y z w v = cc
  quad-IsText a (b ∷ c ∷ d ∷ s) h x y z w v = four a b c d s x y z w (shorter s (omega arith) v)

valid-IsText : (k : ℕ) (s : Bytes) → length s ≤ k → valid_from 0 s ≡ true → IsText s
valid-IsText k [] h v = done
valid-IsText zero (a ∷ s) h v = absurd (omega arith)
valid-IsText (suc k) (a ∷ s) h v = elim (rune_size-Front a s) [
  | none_there e ↦ absurd (cc (valid_none a s e))
  | ascii e l ↦ one a s l (valid-IsText k s (omega arith) (sym (valid_step a 0 s e) ∙ v))
  | pair e x y ↦ pair-IsText k (valid-IsText k) a s (omega arith) x y (sym (valid_step a 1 s e) ∙ v)
  | triple e x y z ↦
      triple-IsText k (valid-IsText k) a s (omega arith) x y z (sym (valid_step a 2 s e) ∙ v)
  | quad e x y z w ↦
      quad-IsText k (valid-IsText k) a s (omega arith) x y z w (sym (valid_step a 3 s e) ∙ v)
]

-- A text that is valid is made of runes.
pub utf8_valid-IsText : (s : Bytes) → utf8_valid s ≡ true → IsText s
utf8_valid-IsText s v = valid-IsText (length s) s (omega arith) v

length-escaped : (c : ℕ) → length (escaped c) ≡ byte_len c
unfolding escaped byte_len
length-escaped c = ground arith

byte_len_pos : (c : ℕ) → 1 ≤ byte_len c
unfolding byte_len
byte_len_pos c = ground arith

length-string_end : (s : Bytes) → length (string_end s) ≡ suc (bytes_len s)
unfolding string_end
length-string_end [] = refl
length-string_end (c ∷ s) =
    length-append (escaped c) (string_end s) ∙ omega (arith, length-escaped c, length-string_end s)

bytes_len_ge : (s : Bytes) → length s ≤ bytes_len s
bytes_len_ge [] = omega arith
bytes_len_ge (c ∷ s) = omega (arith, byte_len_pos c, bytes_len_ge s)

pub quoted_len_lem : (s : Bytes) → quoted_len s ≡ length (append_string s)
unfolding quoted_len append_string
quoted_len_lem s = omega (arith, length-string_end s)

-- A string read back, whatever follows.
pub str-string_end :
    (s rest : Bytes) → utf8_valid s ≡ true → str (string_end s ++ rest) ≡ ok (s, rest)
unfolding str
str-string_end s rest v =
    str_loop-IsText rest (length (string_end s ++ rest)) (utf8_valid-IsText s v)
      (omega (arith, length-append (string_end s) rest, length-string_end s, bytes_len_ge s))
