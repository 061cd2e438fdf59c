-- ===== src/Document/Numbers.antt =====
-- model/document/json.go: a number's canonical text is read back as itself, whatever follows that is no part of it.
use snapshot_engine.Shared.{
  ℕ, ◌≤◌, ◌≡◌, refl, Bool, true, inl, inr, [], ◌∷◌, ◌++◌, nat_beq, if◌then◌else◌, length, drop, all,
  Bytes, arith, Bool-cases,
}
use mathlib.Core.Path.{subst}
use snapshot_engine.Document.Outcome.{ok, bind-ok}
use snapshot_engine.Document.Decimal.{
  is_digit, digits, head_is, int_part, frac_part, exp_part, Decimal, lead_zeros, significant,
  decimal_of, scan_number,
}
use snapshot_engine.Document.Spelling.{all-append, all-drop, length-drop, IsMeasured}

digits-all : (s : Bytes) → all is_digit (digits s).0 ≡ true
unfolding digits
digits-all [] = refl
digits-all (c ∷ s) = elim (Bool-cases (is_digit c)) [
  | inl e ↦ rw (e, digits) (ground (arith, e, digits-all s))
  | inr e ↦ rw (e, digits) refl
]

module _ (p : ℕ → Bool) where
  digits_left : (s : Bytes) → all p s ≡ true → all p (digits s).1 ≡ true
  unfolding digits
  digits_left [] h = refl
  digits_left (c ∷ s) h = elim (Bool-cases (is_digit c)) [
    | inl e ↦ rw (e, digits) (digits_left s (ground arith))
    | inr e ↦ rw (e, digits) h
  ]

  int_part_left : (s d r : Bytes) → int_part s ≡ ok (d, r) → all p s ≡ true → all p r ≡ true
  unfolding int_part
  int_part_left s d r e h = ground (arith, e, digits_left s h)

  frac_part_left : (s d r : Bytes) → frac_part s ≡ ok (d, r) → all p s ≡ true → all p r ≡ true
  unfolding frac_part
  frac_part_left s d r e h = ground (arith, e, digits_left (drop 1 s) (all-drop p 1 s h))

  exp_part_left :
      (s : Bytes) (x : Bool × ℕ) (r : Bytes)
      → exp_part s ≡ ok (x, r)
      → all p s ≡ true
      → all p r ≡ true
  unfolding exp_part
  exp_part_left s x r e h =
      let t : Bytes = drop 1 s in
      let h' : all p t ≡ true = all-drop p 1 s h in
      ground (arith, e, digits_left t h', digits_left (drop 1 t) (all-drop p 1 t h'))

int_part_digits : (s d r : Bytes) → int_part s ≡ ok (d, r) → all is_digit d ≡ true
unfolding int_part
int_part_digits s d r e = ground (arith, e, digits-all s)

frac_part_digits : (s d r : Bytes) → frac_part s ≡ ok (d, r) → all is_digit d ≡ true
unfolding frac_part
frac_part_digits s d r e = ground (arith, e, digits-all (drop 1 s))

lead_zeros_le : (s : Bytes) → lead_zeros s ≤ length s
lead_zeros_le [] = omega arith
lead_zeros_le (c ∷ s) = ground (arith, lead_zeros_le s)

significant_le : (s : Bytes) → significant s ≤ length s
significant_le [] = omega arith
significant_le (c ∷ s) = ground (arith, significant_le s)

decimal_of-IsMeasured :
    (whole frac : Bytes) (e : Bool × ℕ)
    → all is_digit whole ≡ true
    → all is_digit frac ≡ true
    → IsMeasured (decimal_of whole frac e)
unfolding decimal_of
decimal_of-IsMeasured whole frac (minus, e) h k =
    let ds : Bytes = whole ++ frac in
    record {
      all_are = all-append is_digit whole frac h k;
      within = omega (
        arith,
        lead_zeros_le ds,
        length-drop (lead_zeros ds) ds,
        significant_le (drop (lead_zeros ds) ds),
      );
    }

-- What a scan that ends well has read, and what it leaves.
pub record IsScanned (s : Bytes) (d : Decimal) (r : Bytes) : Type 0 where
  pub measured : IsMeasured d
  pub left : (p : ℕ → Bool) → all p s ≡ true → all p r ≡ true

pub scan_number-IsScanned :
    (s : Bytes) (d : Decimal) (neg : Bool) (r : Bytes)
    → scan_number s ≡ ok ((d, neg), r)
    → IsScanned s d r
unfolding scan_number
scan_number-IsScanned s d neg r h =
    let t : Bytes = if head_is (nat_beq b'-') s then drop 1 s else s in
    let (whole, h1, k1) = bind-ok (int_part t) _ h in
    let (frac, h2, k2) = bind-ok (frac_part whole.1) _ k1 in
    let (e, h3, k3) = bind-ok (exp_part frac.1) _ k2 in
    let same : decimal_of whole.0 frac.0 e.0 ≡ d = cc (k3) in
    let rest : e.1 ≡ r = cc (k3) in
    record {
      measured = subst IsMeasured same (
          decimal_of-IsMeasured whole.0 frac.0 e.0 (int_part_digits t whole.0 whole.1 h1)
            (frac_part_digits whole.1 frac.0 frac.1 h2));
      left = λ p a.
          let a' : all p t ≡ true = ground (arith, a, all-drop p 1 s a) in
          subst (λ x. all p x ≡ true) rest
            (exp_part_left p frac.1 e.0 e.1 h3 (
              frac_part_left p whole.1 frac.0 frac.1 h2 (int_part_left p t whole.0 whole.1 h1 a')));
    }
