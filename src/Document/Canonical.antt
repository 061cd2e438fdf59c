-- ===== src/Document/Canonical.antt =====
-- model/document/record.go: a text that `check` takes for a number's is one that `number` reads back as itself.
use snapshot_engine.Shared.{
  ℕ, suc, ◌+◌, ◌*◌, ◌≤◌, ◌≡◌, refl, ap, sym, ◌∙◌, Bool, true, false, ◌||◌, inl, inr, some, [], ◌∷◌,
  ◌++◌, ltb, nat_beq, length, all, Bytes, arith, Bool-cases, Option-cases, bytes_comparable,
}
use mathlib.Core.Path.{subst}
use snapshot_engine.Merge.Node.{Node, null, boolean, number, text, array, object}
use snapshot_engine.Document.Outcome.{
  Outcome, ok, failed, out_of_fuel, ◌>>=◌, bind-ok, Parser, emit, max_document, space,
}
use snapshot_engine.Document.Text.{utf8_valid}
use snapshot_engine.Document.Decimal.{
  is_digit, head_is, Decimal, text_len, decimal_text, scan_number, number_end, number_text,
}
use snapshot_engine.Document.Scans.{Stops, scan_number-append}
use snapshot_engine.Document.Spelling.{is_plain, decimal_text_plain, text_len-length}
use snapshot_engine.Document.Numbers.{scan_number-IsScanned}
use snapshot_engine.Document.Kinds.{value_number}
use snapshot_engine.Document.Json.{skip, is_end, start, parse, parse_fuel, value, finish}
use snapshot_engine.Document.Record.{is_canonical, is_number_of}

-- What reading a number tells.
record IsRead (p : Parser) (t : Bytes) (q : Parser) : Type 0 where
  dec : Decimal
  neg : Bool
  size : ℕ
  scanned : scan_number p.rest ≡ ok ((dec, neg), q.rest)
  measured : text_len dec neg ≡ some size
  spelt : decimal_text dec neg ≡ t

number_text-IsRead :
    (p : Parser) (t : Bytes) (q : Parser) → number_text p ≡ ok (t, q) → IsRead p t q
unfolding number_text emit
number_text-IsRead p t q h =
    let (x, h1, k1) = bind-ok (scan_number p.rest) _ h in
    elim (Option-cases (text_len x.0.0 x.0.1)) [
      | inl e ↦ absurd (ground (arith, e, k1))
      | inr (n, e) ↦ record {
        dec = x.0.0;
        neg = x.0.1;
        size = n;
        scanned = h1 ∙ ground (arith, e, k1);
        measured = e;
        spelt = ground (arith, e, k1);
      }
    ]

space_plain : (s : Bytes) → all is_plain s ≡ true → space s ≡ s
unfolding space
space_plain [] h = refl
space_plain (c ∷ s) h = ground arith

nothing_left : (r : Bytes) → nat_beq (length r) 0 ≡ true → r ≡ []
nothing_left [] h = refl
nothing_left (c ∷ r) h = ground arith

is_number_of-eq : (s : Bytes) (r : Outcome Node) → is_number_of s r ≡ true → r ≡ ok (number s)
is_number_of-eq s (ok (number t)) h = ap (λ x. ok (number x)) ((bytes_comparable.eq_iff t s).0 h)
is_number_of-eq s (ok null) h = cc
is_number_of-eq s (ok (boolean b)) h = cc
is_number_of-eq s (ok (text t)) h = cc
is_number_of-eq s (ok (array ns)) h = cc
is_number_of-eq s (ok (object fs)) h = cc
is_number_of-eq s (failed why) h = cc
is_number_of-eq s out_of_fuel h = cc

unread :
    (d : Decimal) (neg : Bool) (n : ℕ) (rest : Bytes) (out : ℕ)
    → text_len d neg ≡ some n
    → number_end d neg (record { rest = rest; out = out })
      ≡ (emit n (record { rest = rest; out = out }) >>= (λ q. ok (decimal_text d neg, q)))
unread d neg n rest out m = rw (m, number_end) refl

read_again :
    (s rest : Bytes) (out : ℕ) (d : Decimal) (neg : Bool) (n : ℕ)
    → scan_number (s ++ rest) ≡ ok ((d, neg), rest)
    → text_len d neg ≡ some n
    → decimal_text d neg ≡ s
    → length s ≡ n
    → out + length s ≤ max_document
    → number_text (record { rest = s ++ rest; out = out })
      ≡ ok (s, record { rest = rest; out = out + length s })
unfolding number_text emit
read_again s rest out d neg n sc m t l fits =
    let small : ltb max_document (out + n) ≡ false = ground arith in
    rw sc (unread d neg n rest out m ∙ rw small (rw t (rw l refl)))

-- A canonical text of a number.
pub record IsNumeral (s : Bytes) : Type 0 where
  pub fronted : (head_is (nat_beq b'-') s || head_is is_digit s) ≡ true
  pub plain : all is_plain s ≡ true
  pub reads :
      (rest : Bytes) (out : ℕ)
      → Stops rest
      → out + length s ≤ max_document
      → number_text (record { rest = s ++ rest; out = out })
        ≡ ok (s, record { rest = rest; out = out + length s })

-- The parse of a whole text reads a value and then nothing.
parse_value :
    (s : Bytes) (n : Node)
    → parse s ≡ ok n
    → (utf8_valid s ≡ true)
      × (q : Parser) × (value (parse_fuel s) 0 (skip (start s)) ≡ ok (n, q))
      × (is_end (skip q) ≡ true)
unfolding parse
parse_value s n h = elim (Bool-cases (ltb max_document (length s))) [
  | inl e ↦ ground (arith, e, h)
  | inr e ↦ elim (Bool-cases (utf8_valid s)) [
    | inr v ↦ ground (arith, e, v, h)
    | inl v ↦
        let (x, h1, k1) =
          bind-ok (value (parse_fuel s) 0 (skip (start s))) finish (sym (rw e (rw v refl)) ∙ h) in
        elim (Bool-cases (is_end (skip x.1))) [
          | inl z ↦ (v, x.1, h1 ∙ ground (arith, z, k1), z)
          | inr z ↦ ground (arith, z, k1)
        ]
  ]
]

-- A text that `check` takes for a number's is canonical, and ASCII.
pub is_canonical-IsNumeral : (s : Bytes) → is_canonical s ≡ true → IsNumeral s
unfolding is_canonical
is_canonical-IsNumeral s h =
    let (v, q, e, z) = parse_value s (number s) (is_number_of-eq s (parse s) h) in
    let fuel : parse_fuel s ≡ suc (3 * length s + 2) = omega arith in
    let (front, read) =
      value_number (3 * length s + 2) 0 (skip (start s)) s q
        (ap (λ f. value f 0 (skip (start s))) (sym fuel) ∙ e) in
    let r = number_text-IsRead (skip (start s)) s q read in
    let sc = scan_number-IsScanned (space s) r.dec r.neg q.rest r.scanned in
    let plain : all is_plain s ≡ true =
      subst (λ t. all is_plain t ≡ true) r.spelt (decimal_text_plain r.dec sc.measured r.neg) in
    let same : space s ≡ s = space_plain s plain in
    let left : all is_plain q.rest ≡ true =
      sc.left is_plain (subst (λ t. all is_plain t ≡ true) (sym same) plain) in
    let done : q.rest ≡ [] =
      nothing_left q.rest (subst (λ t. nat_beq (length t) 0 ≡ true) (space_plain q.rest left) z) in
    let scanned : scan_number s ≡ ok ((r.dec, r.neg), []) =
      ap scan_number (sym same) ∙ r.scanned ∙ ap (λ t. ok ((r.dec, r.neg), t)) done in
    let size : length s ≡ r.size =
      ap length (sym r.spelt) ∙ text_len-length r.dec sc.measured r.neg r.size r.measured in
    record {
      fronted = subst (λ t. (head_is (nat_beq b'-') t || head_is is_digit t) ≡ true) same front;
      plain = plain;
      reads = λ rest out stops fits.
          read_again s rest out r.dec r.neg r.size
            (scan_number-append rest stops s (r.dec, r.neg) [] scanned) r.measured r.spelt size
            fits;
    }
