-- ===== src/Document/RoundTrip.antt =====
-- model/document/: `Parse` reads back what `Encode` writes, and `DecodeRecord` what `EncodeRecord` writes.
use snapshot_engine.Shared.{
  ℕ, zero, suc, ◌+◌, ◌*◌, ◌≤◌, ◌<◌, ◌≡◌, refl, ap, sym, ◌∙◌, true, false, inl, inr, [], ◌∷◌, ◌++◌,
  ltb, nat_beq, length, length-append, Bytes, arith, Bool-cases, bytes_comparable, ◌==◌,
}
use mathlib.Core.List.{append_assoc, append-nil}
use snapshot_engine.Merge.Node.{
  Node, Nodes, Fields, null, boolean, number, text, array, object, nil, cons, last, field,
  fields_of,
}
use snapshot_engine.Document.Outcome.{ok, bind-ok, max_document, max_depth, space}
use snapshot_engine.Document.Text.{utf8_valid, valid_from}
use snapshot_engine.Document.Quoted.{append_string, string_end}
use snapshot_engine.Document.Json.{
  parse_fuel, value, fields_at, elems_at, parse, encode, encode_elems, encode_fields,
}
use snapshot_engine.Document.Record.{
  check, check_elems, check_fields, format, encode_record, canonical_only, decode_record,
}
use snapshot_engine.Document.Fronts.{state, quoted_written, front_encode, space_front, no_bracket}
use snapshot_engine.Document.Values.{Reads, null-Reads, boolean-Reads, text-Reads, number-Reads}
use snapshot_engine.Document.Utf8.{valid_encode}
use snapshot_engine.Document.Rounds.{
  elems_last, elems_more, fields_last, fields_more, array_empty, array_full, object_empty,
  object_full,
}

abbrev ReadsElems : Nodes → Type 0
ReadsElems nil = Unit
ReadsElems (cons n ns) =
    (fuel depth : ℕ) (rest : Bytes) (out : ℕ)
    → 3 * length (encode_elems true (cons n ns)) < fuel
    → check_elems (cons n ns) depth ≡ true
    → out + length (encode_elems true (cons n ns)) ≤ max_document
    → elems_at fuel depth (state (encode_elems true (cons n ns) ++ rest) out)
      ≡ ok (cons n ns, state rest (out + length (encode_elems true (cons n ns))))

abbrev ReadsFields : Fields → Type 0
ReadsFields last = Unit
ReadsFields (field k v fs) =
    (fuel depth : ℕ) (rest : Bytes) (out : ℕ)
    → 3 * length (encode_fields true (field k v fs)) < fuel
    → check_fields (field k v fs) depth ≡ true
    → out + length (encode_fields true (field k v fs)) ≤ max_document
    → fields_at fuel depth (state (encode_fields true (field k v fs) ++ rest) out)
      ≡ ok (fields_of (field k v fs), state rest (out + length (encode_fields true (field k v fs))))

-- An element and what follows it.
module _ (n : Node) (read : Reads n) where
  elem_last : ReadsElems (cons n nil)
  unfolding encode check
  elem_last zero depth rest out b c h = absurd (omega arith)
  elem_last (suc g) depth rest out b c h =
      let l = length-append (encode n) (b']' ∷ []) in
      let front = space_front (encode n) (b']' ∷ rest) (front_encode n depth (ground arith)) in
      rw (append_assoc (encode n) (b']' ∷ []) rest) (
        elems_last g depth out (out + length (encode n)) n (encode n ++ (b']' ∷ rest)) rest front
          (read g depth (b']' ∷ rest) out (omega arith) refl (ground arith) (omega arith))
          (omega arith)
        ∙ ap (λ x. ok (cons n nil, state rest x)) (omega arith))

  elem_more : (m : Node) (ms : Nodes) → ReadsElems (cons m ms) → ReadsElems (cons n (cons m ms))
  unfolding encode check
  elem_more m ms others zero depth rest out b c h = absurd (omega arith)
  elem_more m ms others (suc g) depth rest out b c h =
      let t : Bytes = encode_elems true (cons m ms) in
      let l : length (encode n ++ (b',' ∷ t)) ≡ length (encode n) + suc (length t) =
        length-append (encode n) (b',' ∷ t) in
      let front =
        space_front (encode n) (b',' ∷ (t ++ rest)) (front_encode n depth (ground arith)) in
      let o : ℕ = out + length (encode n) in
      rw (append_assoc (encode n) (b',' ∷ t) rest) (
        elems_more g depth out o n (encode n ++ (b',' ∷ (t ++ rest))) (t ++ rest) (cons m ms)
          (state rest (o + 1 + length t)) front
          (read g depth (b',' ∷ (t ++ rest)) out (omega arith) refl (ground arith) (omega arith))
          (omega arith) (others g depth rest (o + 1) (omega arith) (ground arith) (omega arith))
        ∙ ap (λ x. ok (cons n (cons m ms), state rest x)) (omega arith))

-- A field and what follows it.
module _ (k : Bytes) (v : Node) (read : Reads v) where
  named : Bytes → Bytes
  named rest = append_string k ++ (b':' ∷ (encode v ++ rest))

  named_rest : (s rest : Bytes) → named s ++ rest ≡ named (s ++ rest)
  unfolding named
  named_rest s rest =
      append_assoc (append_string k) (b':' ∷ (encode v ++ s)) rest
      ∙ ap (λ x. append_string k ++ (b':' ∷ x)) (append_assoc (encode v) s rest)

  length-named :
      (s : Bytes) → length (named s) ≡ length (append_string k) + suc (length (encode v) + length s)
  unfolding named
  length-named s =
      length-append (append_string k) (b':' ∷ (encode v ++ s))
      ∙ omega (arith, length-append (encode v) s)

  field_last : ReadsFields (field k v last)
  unfolding encode check named append_string
  field_last zero depth rest out b c h = absurd (omega arith)
  field_last (suc g) depth rest out b c h =
      let l = length-named (b'}' ∷ []) in
      let t : Bytes = encode v ++ (b'}' ∷ rest) in
      let o : ℕ = out + (length (append_string k) + 2) in
      let q = quoted_written k (b':' ∷ t) out 2 (ground arith) (omega arith) in
      let front = space_front (encode v) (b'}' ∷ rest) (front_encode v depth (ground arith)) in
      ap (λ s. fields_at (suc g) depth (state s out)) (named_rest (b'}' ∷ []) rest)
      ∙ fields_last g depth out o (o + length (encode v)) k v (string_end k ++ (b':' ∷ t)) t rest q
          front (read g depth (b'}' ∷ rest) o (omega arith) refl (ground arith) (omega arith))
      ∙ ap (λ x. ok ((k, v) ∷ [], state rest x)) (omega arith)

  field_more :
      (j : Bytes) (w : Node) (fs : Fields)
      → ReadsFields (field j w fs)
      → ReadsFields (field k v (field j w fs))
  unfolding encode check named append_string
  field_more j w fs others zero depth rest out b c h = absurd (omega arith)
  field_more j w fs others (suc g) depth rest out b c h =
      let u : Bytes = encode_fields true (field j w fs) in
      let l = length-named (b',' ∷ u) in
      let t : Bytes = encode v ++ (b',' ∷ (u ++ rest)) in
      let o : ℕ = out + (length (append_string k) + 2) in
      let o' : ℕ = o + length (encode v) in
      let q = quoted_written k (b':' ∷ t) out 2 (ground arith) (omega arith) in
      let front =
        space_front (encode v) (b',' ∷ (u ++ rest)) (front_encode v depth (ground arith)) in
      ap (λ s. fields_at (suc g) depth (state s out)) (named_rest (b',' ∷ u) rest)
      ∙ fields_more g depth out o o' k v (string_end k ++ (b':' ∷ t)) t (u ++ rest)
          (fields_of (field j w fs)) (state rest (o' + length u)) q front
          (read g depth (b',' ∷ (u ++ rest)) o (omega arith) refl (ground arith) (omega arith))
          (others g depth rest o' (omega arith) (ground arith) (omega arith))
      ∙ ap (λ x. ok ((k, v) ∷ fields_of (field j w fs), state rest x)) (omega arith)

module _ (n : Node) (ns : Nodes) (read : ReadsElems (cons n ns)) where
  array-Reads : Reads (array (cons n ns))
  unfolding encode check
  array-Reads zero depth rest out b st c h = absurd (omega arith)
  array-Reads (suc zero) depth rest out b st c h = absurd (omega arith)
  array-Reads (suc (suc g)) depth rest out b st c h =
      let t : Bytes = encode_elems true (cons n ns) in
      let u : Bytes = encode n ++ (encode_elems false ns ++ rest) in
      let split : t ++ rest ≡ u = append_assoc (encode n) (encode_elems false ns) rest in
      let f = front_encode n (suc depth) (ground arith) in
      let deep : suc depth ≤ max_depth = ground arith in
      let inner = read g (suc depth) rest (out + 1) (omega arith) (ground arith) (omega arith) in
      ap (λ s. value (suc (suc g)) depth (state (b'[' ∷ s) out)) split
      ∙ array_full g depth out u (cons n ns) (state rest (out + 1 + length t)) deep (omega arith)
          (space_front (encode n) (encode_elems false ns ++ rest) f)
          (no_bracket (encode n) (encode_elems false ns ++ rest) out f)
          (ap (λ s. elems_at g (suc depth) (state s (out + 1))) (sym split) ∙ inner)
      ∙ ap (λ x. ok (array (cons n ns), state rest x)) (omega arith)

module _ (k : Bytes) (v : Node) (fs : Fields) (read : ReadsFields (field k v fs)) where
  object-Reads : Reads (object (field k v fs))
  unfolding encode check append_string
  object-Reads zero depth rest out b st c h = absurd (omega arith)
  object-Reads (suc zero) depth rest out b st c h = absurd (omega arith)
  object-Reads (suc (suc g)) depth rest out b st c h =
      let t : Bytes = encode_fields true (field k v fs) in
      let s : Bytes = (string_end k ++ (b':' ∷ (encode v ++ encode_fields false fs))) ++ rest in
      let deep : suc depth ≤ max_depth = ground arith in
      let inner = read g (suc depth) rest (out + 1) (omega arith) (ground arith) (omega arith) in
      object_full g depth out s (field k v fs) (state rest (out + 1 + length t)) deep (omega arith)
        (ground arith) inner
      ∙ ap (λ x. ok (object (field k v fs), state rest x)) (omega arith)

nil-Reads : Reads (array nil)
unfolding encode check
nil-Reads zero depth rest out b st c h = absurd (omega arith)
nil-Reads (suc zero) depth rest out b st c h = absurd (omega arith)
nil-Reads (suc (suc g)) depth rest out b st c h = array_empty g depth out rest (ground arith) h

last-Reads : Reads (object last)
unfolding encode check
last-Reads zero depth rest out b st c h = absurd (omega arith)
last-Reads (suc zero) depth rest out b st c h = absurd (omega arith)
last-Reads (suc (suc g)) depth rest out b st c h = object_empty g depth out rest (ground arith) h

mutual
  reads : (v : Node) → Reads v
  reads null = null-Reads
  reads (boolean x) = boolean-Reads x
  reads (number s) = number-Reads s
  reads (text s) = text-Reads s
  reads (array nil) = nil-Reads
  reads (array (cons n ns)) = array-Reads n ns (reads_elems (cons n ns))
  reads (object last) = last-Reads
  reads (object (field k v fs)) = object-Reads k v fs (reads_fields (field k v fs))

  reads_elems : (ns : Nodes) → ReadsElems ns
  reads_elems nil = tt
  reads_elems (cons n nil) = elem_last n (reads n)
  reads_elems (cons n (cons m ms)) = elem_more n (reads n) m ms (reads_elems (cons m ms))

  reads_fields : (fs : Fields) → ReadsFields fs
  reads_fields last = tt
  reads_fields (field k v last) = field_last k v (reads v)
  reads_fields (field k v (field j w fs)) =
      field_more k v (reads v) j w fs (reads_fields (field j w fs))

-- A value that `check` takes, and whose text is within the limit of a document, is parsed back from its text.
pub parse-encode :
    (v : Node) → check v 0 ≡ true → length (encode v) ≤ max_document → parse (encode v) ≡ ok v
unfolding parse
parse-encode v c fits =
    let small : ltb max_document (length (encode v)) ≡ false = ground arith in
    let valid : utf8_valid (encode v) ≡ true =
      ap utf8_valid (sym (append-nil (encode v)))
      ∙ valid_encode v 0 [] c
      ∙ unfold valid_from in refl in
    let front : space (encode v) ≡ encode v =
      ap space (sym (append-nil (encode v)))
      ∙ space_front (encode v) [] (front_encode v 0 c)
      ∙ append-nil (encode v) in
    let whole : value (parse_fuel (encode v)) 0 (state (encode v) 0)
        ≡ ok (v, state [] (0 + length (encode v))) =
      ap (λ s. value (parse_fuel (encode v)) 0 (state s 0)) (sym (append-nil (encode v)))
      ∙ reads v (parse_fuel (encode v)) 0 [] 0 (omega arith) refl c (omega arith) in
    rw small (rw valid (rw front (rw whole (unfold space in refl))))

-- A record that is stored is read back as the value it was made of.
pub decode_record-encode_record :
    (v : Node) (b : Bytes) → encode_record v ≡ ok b → decode_record b ≡ ok v
unfolding encode_record decode_record
decode_record-encode_record v b h = elim (Bool-cases (check v 0)) [
  | inr c ↦ ground (arith, c, h)
  | inl c ↦ elim (Bool-cases (ltb max_document (length (encode v)))) [
    | inl l ↦ ground (arith, c, l, h)
    | inr l ↦
        let made : b ≡ format ∷ encode v = ground (arith, c, l, h) in
        let same : (encode v == encode v) ≡ true =
          (bytes_comparable.eq_iff (encode v) (encode v)).1 refl in
        rw made (rw (parse-encode v c (ground arith)) (rw same refl))
  ]
]

-- A record that is read is the frame byte and its value's canonical text, so a value has one record.
pub decode_record-eq : (b : Bytes) (v : Node) → decode_record b ≡ ok v → b ≡ format ∷ encode v
unfolding decode_record
decode_record-eq [] v h = cc
decode_record-eq (f ∷ s) v h = elim (Bool-cases (nat_beq f format)) [
  | inr e ↦ ground (arith, e, h)
  | inl e ↦
      let (n, h1, k1) = bind-ok (parse s) (canonical_only s) (sym (rw e refl) ∙ h) in
      elim (Bool-cases (encode n == s)) [
        | inr d ↦ ground (arith, d, k1)
        | inl d ↦
            let same : encode n ≡ s = (bytes_comparable.eq_iff (encode n) s).0 d in
            let value_same : n ≡ v = ground (arith, d, k1) in ground (arith, same, value_same)
      ]
]
