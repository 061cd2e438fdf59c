-- ===== src/Document/Kinds.antt =====
-- model/document/json.go: a number comes of `number` alone.
use snapshot_engine.Shared.{
  ℕ, zero, suc, ◌≡◌, refl, sym, ◌∙◌, true, false, ◌||◌, inl, inr, List, ltb, Bytes, arith,
  Bool-cases,
}
use snapshot_engine.Merge.Node.{Node, null, boolean, number, text, array, object, nil, last}
use snapshot_engine.Document.Outcome.{
  Outcome, ok, failed, out_of_fuel, ◌>>=◌, bind-ok, Parser, emit, max_depth,
}
use snapshot_engine.Document.Decimal.{is_digit, head_is, number_text}
use snapshot_engine.Document.Json.{
  skip, advance, at, is_end, quoted, literal, close_object, value, object_at, fields_at, array_at,
  elems_at,
}

abbrev pub NotNumber : Outcome (Node × Parser) → Type 0
NotNumber r = (s : Bytes) (q : Parser) → r ≡ ok (number s, q) → ⊥

close_object-NotNumber : (fs : List (Bytes × Node)) (p : Parser) → NotNumber (close_object fs p)
unfolding close_object
close_object-NotNumber fs p s q h = ground (arith, h)

object_at-NotNumber : (fuel depth : ℕ) (p : Parser) → NotNumber (object_at fuel depth p)
unfolding value
object_at-NotNumber zero depth p s q h = cc
object_at-NotNumber (suc fuel) depth p s q h =
    let u = skip (advance 1 p) in
    elim (Bool-cases (ltb max_depth depth)) [
      | inl e ↦ ground (arith, e, h)
      | inr e ↦ elim (Bool-cases (at b'}' u)) [
        | inl f ↦
            let (r, _, k) =
              bind-ok (emit 2 (advance 1 u)) (λ x. ok (object last, x))
                (sym (rw e (rw f refl)) ∙ h) in
            cc (k)
        | inr f ↦
            let (r, _, k) =
              bind-ok (emit 1 u >>= (λ r. fields_at fuel depth r)) (λ (fs, r). close_object fs r)
                (sym (rw e (rw f refl)) ∙ h) in
            close_object-NotNumber r.0 r.1 s q k
      ]
    ]

array_at-NotNumber : (fuel depth : ℕ) (p : Parser) → NotNumber (array_at fuel depth p)
unfolding value
array_at-NotNumber zero depth p s q h = cc
array_at-NotNumber (suc fuel) depth p s q h =
    let u = skip (advance 1 p) in
    elim (Bool-cases (ltb max_depth depth)) [
      | inl e ↦ ground (arith, e, h)
      | inr e ↦ elim (Bool-cases (at b']' u)) [
        | inl f ↦
            let (r, _, k) =
              bind-ok (emit 2 (advance 1 u)) (λ x. ok (array nil, x))
                (sym (rw e (rw f refl)) ∙ h) in
            cc (k)
        | inr f ↦
            let (r, _, k) =
              bind-ok (emit 1 u >>= (λ r. elems_at fuel depth r)) (λ (ns, r). ok (array ns, r))
                (sym (rw e (rw f refl)) ∙ h) in
            cc (k)
      ]
    ]

text-NotNumber : (r : Outcome (Bytes × Parser)) → NotNumber (r >>= (λ (s, q). ok (text s, q)))
text-NotNumber (ok _) s q h = cc
text-NotNumber (failed _) s q h = cc
text-NotNumber out_of_fuel s q h = cc

literal-NotNumber :
    (n : Node) (size : ℕ) (p : Parser)
    → ((s : Bytes) → n ≡ number s → ⊥)
    → NotNumber (literal n size p)
unfolding literal
literal-NotNumber n size p f s q h =
    let (r, _, k) = bind-ok (emit size (advance size p)) _ h in f s (cc (k))

-- The value is a number: the front is a sign or a digit, and `number` read it.
pub value_number :
    (fuel depth : ℕ) (p : Parser) (s : Bytes) (q : Parser)
    → value (suc fuel) depth p ≡ ok (number s, q)
    → ((at b'-' p || head_is is_digit p.rest) ≡ true) × (number_text p ≡ ok (s, q))
unfolding value
value_number fuel depth p s q h = elim (Bool-cases (is_end p)) [
  | inl e0 ↦ ground (arith, e0, h)
  | inr e0 ↦ elim (Bool-cases (at b'{' p)) [
    | inl e1 ↦ absurd (object_at-NotNumber fuel (suc depth) p s q (sym (rw e0 (rw e1 refl)) ∙ h))
    | inr e1 ↦ elim (Bool-cases (at b'[' p)) [
      | inl e2 ↦
          absurd (array_at-NotNumber fuel (suc depth) p s q (sym (rw e0 (rw e1 (rw e2 refl))) ∙ h))
      | inr e2 ↦ elim (Bool-cases (at b'"' p)) [
        | inl e3 ↦
            absurd (text-NotNumber (quoted 0 p) s q (sym (rw e0 (rw e1 (rw e2 (rw e3 refl)))) ∙ h))
        | inr e3 ↦ elim (Bool-cases (at b'-' p || head_is is_digit p.rest)) [
          | inl e4 ↦
              let (r, k, l) =
                bind-ok (number_text p) (λ (t, x). ok (number t, x))
                  (sym (rw e0 (rw e1 (rw e2 (rw e3 (rw e4 refl))))) ∙ h) in
              (e4, k ∙ cc (l))
          | inr e4 ↦ absurd (
              ground (
                arith,
                e0,
                e1,
                e2,
                e3,
                e4,
                h,
                literal-NotNumber (boolean true) 4 p (λ t e. cc) s q,
                literal-NotNumber (boolean false) 5 p (λ t e. cc) s q,
                literal-NotNumber null 4 p (λ t e. cc) s q,
              ))
        ]
      ]
    ]
  ]
]
