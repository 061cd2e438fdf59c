-- ===== src/Document/Values.antt =====
-- model/document/json.go: `value` reads what `encode` wrote, whatever follows.
use snapshot_engine.Shared.{
  ℕ, zero, suc, ◌+◌, ◌*◌, ◌≤◌, ◌<◌, ◌≡◌, refl, ap, ◌∙◌, Bool, true, false, ◌||◌, [], ◌∷◌, ◌++◌,
  nat_beq, length, drop, Bytes, arith,
}
use snapshot_engine.Merge.Node.{Node, null, boolean, number, text}
use snapshot_engine.Document.Outcome.{ok, Parser, max_document}
use snapshot_engine.Document.Quoted.{append_string, string_end}
use snapshot_engine.Document.Decimal.{is_digit, head_is, number_text}
use snapshot_engine.Document.Scans.{Stops}
use snapshot_engine.Document.Json.{quoted, literal, value, encode}
use snapshot_engine.Document.Record.{check}
use snapshot_engine.Document.Canonical.{is_canonical-IsNumeral}
use snapshot_engine.Document.Fronts.{state, emit_fits, is_end_cons, quoted_written}

-- With enough fuel, a checked value is read off the front of what was written, and counted by its length.
abbrev pub Reads : Node → Type 0
Reads v =
    (fuel depth : ℕ) (rest : Bytes) (out : ℕ)
    → 3 * length (encode v) < fuel
    → Stops rest
    → check v depth ≡ true
    → out + length (encode v) ≤ max_document
    → value fuel depth (state (encode v ++ rest) out) ≡ ok (v, state rest (out + length (encode v)))

literal_fits :
    (n : Node) (size : ℕ) (s rest : Bytes) (out : ℕ)
    → drop size s ≡ rest
    → out + size ≤ max_document
    → literal n size (state s out) ≡ ok (n, state rest (out + size))
unfolding literal
literal_fits n size s rest out e h = rw e (rw (emit_fits size rest out h) refl)

pub null-Reads : Reads null
unfolding value encode
null-Reads zero depth rest out b st c h = absurd (omega arith)
null-Reads (suc fuel) depth rest out b st c h =
    rw (is_end_cons b'n' (b'u' ∷ b'l' ∷ b'l' ∷ rest) out)
      (literal_fits null 4 (b'n' ∷ b'u' ∷ b'l' ∷ b'l' ∷ rest) rest out refl h)

pub boolean-Reads : (x : Bool) → Reads (boolean x)
unfolding value encode
boolean-Reads x zero depth rest out b st c h = absurd (omega arith)
boolean-Reads true (suc fuel) depth rest out b st c h =
    rw (is_end_cons b't' (b'r' ∷ b'u' ∷ b'e' ∷ rest) out)
      (literal_fits (boolean true) 4 (b't' ∷ b'r' ∷ b'u' ∷ b'e' ∷ rest) rest out refl h)
boolean-Reads false (suc fuel) depth rest out b st c h =
    rw (is_end_cons b'f' (b'a' ∷ b'l' ∷ b's' ∷ b'e' ∷ rest) out)
      (literal_fits (boolean false) 5 (b'f' ∷ b'a' ∷ b'l' ∷ b's' ∷ b'e' ∷ rest) rest out refl h)

text_step :
    (s rest : Bytes) (out fuel depth : ℕ) {q : Parser}
    → quoted 0 (state (append_string s ++ rest) out) ≡ ok (s, q)
    → value (suc fuel) depth (state (append_string s ++ rest) out) ≡ ok (text s, q)
unfolding value append_string
text_step s rest out fuel depth h = rw (is_end_cons b'"' (string_end s ++ rest) out) (rw h refl)

number_step :
    (s rest : Bytes) (out fuel depth : ℕ) {q : Parser}
    → (head_is (nat_beq b'-') s || head_is is_digit s) ≡ true
    → number_text (state (s ++ rest) out) ≡ ok (s, q)
    → value (suc fuel) depth (state (s ++ rest) out) ≡ ok (number s, q)
unfolding value
number_step [] rest out fuel depth f h = cc
number_step (c ∷ s) rest out fuel depth f h =
    let e1 : nat_beq b'{' c ≡ false = ground arith in
    let e2 : nat_beq b'[' c ≡ false = ground arith in
    let e3 : nat_beq b'"' c ≡ false = ground arith in
    rw (is_end_cons c (s ++ rest) out) (rw e1 (rw e2 (rw e3 (rw f (rw h refl)))))

pub text-Reads : (s : Bytes) → Reads (text s)
unfolding value encode check
text-Reads s zero depth rest out b st c h = absurd (omega arith)
text-Reads s (suc fuel) depth rest out b st c h =
    let l = length (append_string s) in
    let zero_more : l + 0 ≡ l = omega arith in
    let q : quoted 0 (state (append_string s ++ rest) out) ≡ ok (s, state rest (out + l)) =
      quoted_written s rest out 0 c (omega arith)
      ∙ ap (λ n. ok (s, state rest (out + n))) zero_more in
    text_step s rest out fuel depth q

pub number-Reads : (s : Bytes) → Reads (number s)
unfolding encode check
number-Reads s zero depth rest out b st c h = absurd (omega arith)
number-Reads s (suc fuel) depth rest out b st c h =
    let n = is_canonical-IsNumeral s c in
    number_step s rest out fuel depth n.fronted (n.reads rest out st h)
