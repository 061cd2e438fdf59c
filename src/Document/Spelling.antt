-- ===== src/Document/Spelling.antt =====
-- model/document/json.go: the canonical text of a number: its bytes, and its length.
use snapshot_engine.Shared.{
  ℕ, zero, suc, ◌+◌, ◌-◌, ◌≤◌, ◌≡◌, refl, ◌∙◌, Bool, true, ◌||◌, inl, inr, some, [], ◌∷◌, ◌++◌, leb,
  nat_beq, if◌then◌else◌, length, length-append, take, drop, replicate, slice, all, Bytes, arith,
  Bool-cases,
}
use snapshot_engine.Document.Decimal.{is_digit, Decimal, text_len, digits_from, decimal_text}

module _ (p : ℕ → Bool) where
  pub all-append : (s t : Bytes) → all p s ≡ true → all p t ≡ true → all p (s ++ t) ≡ true
  all-append [] t h k = k
  all-append (c ∷ s) t h k = ground (arith, all-append s t)

  all-take : (n : ℕ) (s : Bytes) → all p s ≡ true → all p (take n s) ≡ true
  all-take zero s h = refl
  all-take (suc n) [] h = refl
  all-take (suc n) (c ∷ s) h = ground (arith, all-take n s)

  pub all-drop : (n : ℕ) (s : Bytes) → all p s ≡ true → all p (drop n s) ≡ true
  all-drop zero s h = h
  all-drop (suc n) [] h = refl
  all-drop (suc n) (c ∷ s) h = ground (arith, all-drop n s)

  all-replicate : (n c : ℕ) → p c ≡ true → all p (replicate n c) ≡ true
  all-replicate zero c h = refl
  all-replicate (suc n) c h = ground (arith, all-replicate n c)

  pub all_weaken :
      (q : ℕ → Bool) (s : Bytes)
      → ((c : ℕ) → q c ≡ true → p c ≡ true)
      → all q s ≡ true
      → all p s ≡ true
  all_weaken q [] f h = refl
  all_weaken q (c ∷ s) f h = ground (arith, f c, all_weaken q s f)

pub length-drop : (n : ℕ) (s : Bytes) → length (drop n s) ≡ length s - n
length-drop zero s = omega arith
length-drop (suc n) [] = omega arith
length-drop (suc n) (c ∷ s) = omega (arith, length-drop n s)

length-take_all : (n : ℕ) (s : Bytes) → n ≤ length s → length (take n s) ≡ n
length-take_all zero s h = omega arith
length-take_all (suc n) [] h = absurd (omega arith)
length-take_all (suc n) (c ∷ s) h = omega (arith, length-take_all n s (omega arith))

length-replicate : (n c : ℕ) → length (replicate n c) ≡ n
length-replicate zero c = omega arith
length-replicate (suc n) c = omega (arith, length-replicate n c)

length-slice : (s : Bytes) (i j : ℕ) → i ≤ j → j ≤ length s → length (slice s i j) ≡ j - i
length-slice s i j h k = length-take_all (j - i) (drop i s) (omega (arith, length-drop i s))

-- A byte of a number's canonical text.
abbrev pub is_plain : ℕ → Bool
is_plain c = is_digit c || (nat_beq c b'.' || nat_beq c b'-')

-- A decimal's digits are digits, and its significant ones are among them.
pub record IsMeasured (d : Decimal) : Type 0 where
  pub all_are : all is_digit d.all_digits ≡ true
  pub within : d.lead + d.sig ≤ length d.all_digits

module _ (d : Decimal) (m : IsMeasured d) (neg : Bool) where
  plain_digits : (i j : ℕ) → all is_plain (digits_from d i j) ≡ true
  plain_digits i j = all-take is_plain _ (drop (d.lead + i) d.all_digits) (
      all-drop is_plain (d.lead + i) d.all_digits
        (all_weaken is_plain is_digit d.all_digits (λ c h. ground arith) m.all_are))

  pub decimal_text_plain : all is_plain (decimal_text d neg) ≡ true
  unfolding decimal_text
  decimal_text_plain =
      let zeros = λ (n : ℕ). all-replicate is_plain n b'0' refl in
      let body =
        all-append is_plain (replicate d.under b'0') (digits_from d 0 d.sig) (zeros d.under)
          (plain_digits 0 d.sig) in
      let whole =
        all-append is_plain (digits_from d 0 d.sig) (replicate (d.point - d.sig) b'0')
          (plain_digits 0 d.sig) (zeros (d.point - d.sig)) in
      let mixed =
        all-append is_plain (digits_from d 0 d.point) (b'.' ∷ digits_from d d.point d.sig)
          (plain_digits 0 d.point) (plain_digits d.point d.sig) in
      ground (arith, body, whole, mixed)

  length-digits_from : (i j : ℕ) → i ≤ j → j ≤ d.sig → length (digits_from d i j) ≡ j - i
  length-digits_from i j h k =
      let w = m.within in
      length-slice d.all_digits (d.lead + i) (d.lead + j) (omega arith) (omega arith) ∙ omega arith

  abbrev small_text : Bytes
  small_text = replicate d.under b'0' ++ digits_from d 0 d.sig

  abbrev whole_text : Bytes
  whole_text = digits_from d 0 d.sig ++ replicate (d.point - d.sig) b'0'

  abbrev mixed_text : Bytes
  mixed_text = digits_from d 0 d.point ++ (b'.' ∷ digits_from d d.point d.sig)

  length-small : length small_text ≡ d.under + d.sig
  length-small =
      length-append (replicate d.under b'0') (digits_from d 0 d.sig)
      ∙ omega (
        arith,
        length-replicate d.under b'0',
        length-digits_from 0 d.sig (omega arith) (omega arith),
      )

  length-whole : length whole_text ≡ d.sig + (d.point - d.sig)
  length-whole =
      length-append (digits_from d 0 d.sig) (replicate (d.point - d.sig) b'0')
      ∙ omega (
        arith,
        length-replicate (d.point - d.sig) b'0',
        length-digits_from 0 d.sig (omega arith) (omega arith),
      )

  length-mixed : d.point ≤ d.sig → length mixed_text ≡ suc d.sig
  length-mixed h =
      length-append (digits_from d 0 d.point) (b'.' ∷ digits_from d d.point d.sig)
      ∙ omega (
        arith,
        length-digits_from 0 d.point (omega arith) h,
        length-digits_from d.point d.sig h (omega arith),
      )

  -- The length counted before the text is built is the text's.
  pub text_len-length : (n : ℕ) → text_len d neg ≡ some n → length (decimal_text d neg) ≡ n
  unfolding text_len decimal_text
  text_len-length n e = elim (Bool-cases (nat_beq d.sig 0)) [
    | inl z ↦ rw z (ground (arith, z, e))
    | inr z ↦ elim (Bool-cases (nat_beq d.point 0)) [
      | inl p ↦ rw z (rw p (ground (arith, z, p, e, length-small)))
      | inr p ↦ elim (Bool-cases (leb d.sig d.point)) [
        | inl q ↦ rw z (
            rw p (
              rw q (
                length-append (if neg then b'-' ∷ [] else []) whole_text
                ∙ ground (arith, z, p, q, e, length-whole))))
        | inr q ↦ rw z (
            rw p (
              rw q (
                length-append (if neg then b'-' ∷ [] else []) mixed_text
                ∙ ground (arith, z, p, q, e, length-mixed (ground arith)))))
      ]
    ]
  ]
