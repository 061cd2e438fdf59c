-- ===== src/Document/Scans.antt =====
-- model/document/json.go: what `number` reads does not depend on what follows, where that is no part of a number.
use snapshot_engine.Shared.{
  ℕ, ◌≡◌, refl, ap, Bool, true, false, ◌||◌, inl, inr, [], ◌∷◌, ◌++◌, nat_beq, if◌then◌else◌, Bytes,
  arith, Bool-cases,
}
use snapshot_engine.Document.Outcome.{ok, bind-ok}
use snapshot_engine.Document.Decimal.{
  is_digit, digits, head_is, int_part, frac_part, is_sign, exp_part, Decimal, scan_number,
}

-- A byte that may go on a number.
abbrev pub is_more : ℕ → Bool
is_more c =
    is_digit c
    || (nat_beq b'.' c
        || (nat_beq c b'e' || (nat_beq c b'E' || (nat_beq c b'+' || nat_beq c b'-'))))

abbrev pub Stops : Bytes → Type 0
Stops rest = head_is is_more rest ≡ false

module _ (rest : Bytes) (stops : Stops rest) where
  digits_stop : digits rest ≡ ([], rest)
  unfolding digits
  digits_stop = go rest stops
    where
      go : (r : Bytes) → Stops r → digits r ≡ ([], r)
      go [] s = refl
      go (c ∷ r) s = let e : is_digit c ≡ false = ground arith in rw (e, digits) refl

  digits-append : (s : Bytes) → digits (s ++ rest) ≡ ((digits s).0, (digits s).1 ++ rest)
  unfolding digits
  digits-append [] = digits_stop
  digits-append (c ∷ s) = elim (Bool-cases (is_digit c)) [
    | inl e ↦ rw (e, digits) (ap (λ x. (c ∷ x.0, x.1)) (digits-append s))
    | inr e ↦ rw (e, digits) refl
  ]

  int_part-append :
      (s d r : Bytes) → int_part s ≡ ok (d, r) → int_part (s ++ rest) ≡ ok (d, r ++ rest)
  unfolding int_part
  int_part-append s d r h = rw (digits-append s) (ground (arith, h))

  stop_not : (p : ℕ → Bool) → ((c : ℕ) → p c ≡ true → is_more c ≡ true) → head_is p rest ≡ false
  stop_not p f = go rest stops
    where
      go : (r : Bytes) → Stops r → head_is p r ≡ false
      go [] s = refl
      go (c ∷ r) s = ground (arith, f c)

  frac_part-append :
      (s d r : Bytes) → frac_part s ≡ ok (d, r) → frac_part (s ++ rest) ≡ ok (d, r ++ rest)
  unfolding frac_part
  frac_part-append [] d r h = rw (stop_not (nat_beq b'.') (λ c e. ground arith)) (ground (arith, h))
  frac_part-append (c ∷ s) d r h = elim (Bool-cases (nat_beq b'.' c)) [
    | inl e ↦ rw e (rw (digits-append s) (ground (arith, h, e)))
    | inr e ↦ rw e (ground (arith, h, e))
  ]

  exp_part-append :
      (s : Bytes) (e : Bool × ℕ) (r : Bytes)
      → exp_part s ≡ ok (e, r)
      → exp_part (s ++ rest) ≡ ok (e, r ++ rest)
  unfolding exp_part
  exp_part-append [] e r h =
      rw (stop_not (λ c. nat_beq c b'e' || nat_beq c b'E') (λ c e. ground arith))
        (ground (arith, h))
  exp_part-append (c ∷ []) e r h = elim (Bool-cases (nat_beq c b'e' || nat_beq c b'E')) [
    | inl k ↦ absurd (unfold digits in ground (arith, h, k))
    | inr k ↦ rw k (ground (arith, h, k))
  ]
  exp_part-append (c ∷ d ∷ s) e r h = elim (Bool-cases (nat_beq c b'e' || nat_beq c b'E')) [
    | inr k ↦ rw k (ground (arith, h, k))
    | inl k ↦ elim (Bool-cases (is_sign d)) [
      | inl g ↦ rw k (rw g (rw (digits-append s) (ground (arith, h, k, g))))
      | inr g ↦ rw k (rw g (rw (digits-append (d ∷ s)) (ground (arith, h, k, g))))
    ]
  ]

  -- A number is read as the same decimal whatever follows, if that does not go on it.
  pub scan_number-append :
      (s : Bytes) (x : Decimal × Bool) (r : Bytes)
      → scan_number s ≡ ok (x, r)
      → scan_number (s ++ rest) ≡ ok (x, r ++ rest)
  unfolding scan_number
  scan_number-append [] x r h = absurd (unfold int_part in unfold digits in ground (arith, h))
  scan_number-append (c ∷ s) x r h =
      let neg : Bool = nat_beq b'-' c in
      let t : Bytes = if neg then s else c ∷ s in
      let (whole, h1, k1) = bind-ok (int_part t) _ h in
      let (frac, h2, k2) = bind-ok (frac_part whole.1) _ k1 in
      let (e, h3, k3) = bind-ok (exp_part frac.1) _ k2 in
      let front : (if neg then s ++ rest else c ∷ (s ++ rest)) ≡ t ++ rest = ground arith in
      rw front (
        rw (int_part-append t whole.0 whole.1 h1) (
          rw (frac_part-append whole.1 frac.0 frac.1 h2)
            (rw (exp_part-append frac.1 e.0 e.1 h3) (cc (k3)))))
