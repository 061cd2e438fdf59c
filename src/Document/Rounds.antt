-- ===== src/Document/Rounds.antt =====
-- model/document/json.go: one round of the loops over elements and fields, at what the printer wrote.
use snapshot_engine.Shared.{
  ℕ, suc, ◌+◌, ◌≤◌, ◌≡◌, refl, true, false, List, [], ◌∷◌, ltb, Bytes, arith,
}
use snapshot_engine.Merge.Node.{Node, Nodes, Fields, array, object, nil, cons, last, fields_of}
use snapshot_engine.Document.Outcome.{ok, Parser, max_document, max_depth, space}
use snapshot_engine.Document.Json.{at, quoted, value, fields_at, elems_at}
use snapshot_engine.Document.Record.{check_fields}
use snapshot_engine.Document.Fronts.{state, emit_fits, is_end_cons, space_cons, close_checked}

module _ (g depth out o : ℕ) (v : Node) (u rest : Bytes) where
  pub elems_last :
      space u ≡ u
      → value g depth (state u out) ≡ ok (v, state (b']' ∷ rest) o)
      → o + 1 ≤ max_document
      → elems_at (suc g) depth (state u out) ≡ ok (cons v nil, state rest (o + 1))
  unfolding value
  elems_last front h fits = rw front (
      rw h (
        rw (space_cons b']' rest refl)
          (rw (is_end_cons b']' rest o) (rw (emit_fits 1 (b']' ∷ rest) o fits) refl))))

  pub elems_more :
      (ns : Nodes) (q : Parser)
      → space u ≡ u
      → value g depth (state u out) ≡ ok (v, state (b',' ∷ rest) o)
      → o + 1 ≤ max_document
      → elems_at g depth (state rest (o + 1)) ≡ ok (ns, q)
      → elems_at (suc g) depth (state u out) ≡ ok (cons v ns, q)
  unfolding value
  elems_more ns q front h fits k = rw front (
      rw h (
        rw (space_cons b',' rest refl)
          (rw (is_end_cons b',' rest o) (rw (emit_fits 1 (b',' ∷ rest) o fits) (rw k refl)))))

-- A field's name and colon, before its value.
module _ (g depth out o o' : ℕ) (k : Bytes) (v : Node) (s t rest : Bytes) where
  pub fields_last :
      quoted 2 (state (b'"' ∷ s) out) ≡ ok (k, state (b':' ∷ t) o)
      → space t ≡ t
      → value g depth (state t o) ≡ ok (v, state (b'}' ∷ rest) o')
      → fields_at (suc g) depth (state (b'"' ∷ s) out) ≡ ok ((k, v) ∷ [], state rest o')
  unfolding value
  fields_last q front h = rw (space_cons b'"' s refl) (
      rw q (
        rw (space_cons b':' t refl) (
          rw front (
            rw h (
              rw (space_cons b'}' rest refl)
                (rw (is_end_cons b'}' rest o') (rw (space_cons b'}' rest refl) refl)))))))

  pub fields_more :
      (fs : List (Bytes × Node)) (p : Parser)
      → quoted 2 (state (b'"' ∷ s) out) ≡ ok (k, state (b':' ∷ t) o)
      → space t ≡ t
      → value g depth (state t o) ≡ ok (v, state (b',' ∷ rest) o')
      → fields_at g depth (state rest o') ≡ ok (fs, p)
      → fields_at (suc g) depth (state (b'"' ∷ s) out) ≡ ok ((k, v) ∷ fs, p)
  unfolding value
  fields_more fs p q front h m = rw (space_cons b'"' s refl) (
      rw q (
        rw (space_cons b':' t refl) (
          rw front (
            rw h (
              rw (space_cons b',' rest refl)
                (rw (is_end_cons b',' rest o') (rw (space_cons b',' rest refl) (rw m refl))))))))

module _ (g depth out : ℕ) where
  pub array_empty :
      (rest : Bytes)
      → suc depth ≤ max_depth
      → out + 2 ≤ max_document
      → value (suc (suc g)) depth (state (b'[' ∷ b']' ∷ rest) out)
        ≡ ok (array nil, state rest (out + 2))
  unfolding value
  array_empty rest d fits =
      let deep : ltb max_depth (suc depth) ≡ false = ground arith in
      rw (is_end_cons b'[' (b']' ∷ rest) out)
        (rw deep (rw (space_cons b']' rest refl) (rw (emit_fits 2 rest out fits) refl)))

  pub array_full :
      (u : Bytes) (ns : Nodes) (q : Parser)
      → suc depth ≤ max_depth
      → out + 1 ≤ max_document
      → space u ≡ u
      → at b']' (state u out) ≡ false
      → elems_at g (suc depth) (state u (out + 1)) ≡ ok (ns, q)
      → value (suc (suc g)) depth (state (b'[' ∷ u) out) ≡ ok (array ns, q)
  unfolding value
  array_full u ns q d fits front no_close h =
      let deep : ltb max_depth (suc depth) ≡ false = ground arith in
      rw (is_end_cons b'[' u out)
        (rw deep (rw front (rw no_close (rw (emit_fits 1 u out fits) (rw h refl)))))

  pub object_empty :
      (rest : Bytes)
      → suc depth ≤ max_depth
      → out + 2 ≤ max_document
      → value (suc (suc g)) depth (state (b'{' ∷ b'}' ∷ rest) out)
        ≡ ok (object last, state rest (out + 2))
  unfolding value
  object_empty rest d fits =
      let deep : ltb max_depth (suc depth) ≡ false = ground arith in
      rw (is_end_cons b'{' (b'}' ∷ rest) out)
        (rw deep (rw (space_cons b'}' rest refl) (rw (emit_fits 2 rest out fits) refl)))

  pub object_full :
      (s : Bytes) (fs : Fields) (q : Parser)
      → suc depth ≤ max_depth
      → out + 1 ≤ max_document
      → check_fields fs (suc depth) ≡ true
      → fields_at g (suc depth) (state (b'"' ∷ s) (out + 1)) ≡ ok (fields_of fs, q)
      → value (suc (suc g)) depth (state (b'{' ∷ b'"' ∷ s) out) ≡ ok (object fs, q)
  unfolding value
  object_full s fs q d fits checked h =
      let deep : ltb max_depth (suc depth) ≡ false = ground arith in
      rw (is_end_cons b'{' (b'"' ∷ s) out) (
        rw deep (
          rw (space_cons b'"' s refl)
            (rw (emit_fits 1 (b'"' ∷ s) out fits) (rw h (close_checked fs (suc depth) q checked)))))
