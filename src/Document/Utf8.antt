-- ===== src/Document/Utf8.antt =====
-- model/document/json.go: what `Encode` writes is UTF-8.
use snapshot_engine.Shared.{
  ℕ, suc, ◌≡◌, refl, ap, ◌∙◌, Bool, true, false, [], ◌∷◌, ◌++◌, if◌then◌else◌, Bytes, arith,
}
use mathlib.Core.List.{append_assoc}
use snapshot_engine.Merge.Node.{
  Node, Nodes, Fields, null, boolean, number, text, array, object, nil, cons, last, field,
}
use snapshot_engine.Document.Text.{utf8_valid, valid_from}
use snapshot_engine.Document.Quoted.{append_string, string_end}
use snapshot_engine.Document.Spelling.{is_plain, all_weaken}
use snapshot_engine.Document.Validity.{utf8_valid-IsText}
use snapshot_engine.Document.Written.{is_ascii, valid-ascii, valid-string_end}
use snapshot_engine.Document.Json.{encode, encode_elems, encode_fields}
use snapshot_engine.Document.Record.{check, check_elems, check_fields}
use snapshot_engine.Document.Canonical.{IsNumeral, is_canonical-IsNumeral}

valid_number : (s t : Bytes) → IsNumeral s → valid_from 0 (s ++ t) ≡ valid_from 0 t
valid_number s t n = valid-ascii s t (all_weaken is_ascii is_plain s (λ c h. ground arith) n.plain)

valid_text :
    (s t : Bytes) → utf8_valid s ≡ true → valid_from 0 (append_string s ++ t) ≡ valid_from 0 t
unfolding append_string
valid_text s t v =
    valid-ascii (b'"' ∷ []) (string_end s ++ t) refl ∙ valid-string_end t (utf8_valid-IsText s v)

-- A byte of punctuation in front makes no difference.
valid_punct : (c : ℕ) (t : Bytes) → is_ascii c ≡ true → valid_from 0 (c ∷ t) ≡ valid_from 0 t
valid_punct c t h = valid-ascii (c ∷ []) t (ground arith)

comma :
    (first : Bool) (s t : Bytes)
    → valid_from 0 (((if first then [] else b',' ∷ []) ++ s) ++ t) ≡ valid_from 0 (s ++ t)
comma true s t = refl
comma false s t = valid_punct b',' (s ++ t) refl

mutual
  unfolding encode check

  pub valid_encode :
      (v : Node) (depth : ℕ) (t : Bytes)
      → check v depth ≡ true
      → valid_from 0 (encode v ++ t) ≡ valid_from 0 t
  valid_encode null depth t c = valid-ascii (b'n' ∷ b'u' ∷ b'l' ∷ b'l' ∷ []) t refl
  valid_encode (boolean true) depth t c = valid-ascii (b't' ∷ b'r' ∷ b'u' ∷ b'e' ∷ []) t refl
  valid_encode (boolean false) depth t c =
      valid-ascii (b'f' ∷ b'a' ∷ b'l' ∷ b's' ∷ b'e' ∷ []) t refl
  valid_encode (number s) depth t c = valid_number s t (is_canonical-IsNumeral s c)
  valid_encode (text s) depth t c = valid_text s t c
  valid_encode (array ns) depth t c =
      valid_punct b'[' (encode_elems true ns ++ t) refl
      ∙ valid_elems true ns (suc depth) t (ground arith)
  valid_encode (object fs) depth t c =
      valid_punct b'{' (encode_fields true fs ++ t) refl
      ∙ valid_fields true fs (suc depth) t (ground arith)

  valid_elems :
      (first : Bool) (ns : Nodes) (depth : ℕ) (t : Bytes)
      → check_elems ns depth ≡ true
      → valid_from 0 (encode_elems first ns ++ t) ≡ valid_from 0 t
  valid_elems first nil depth t c = valid_punct b']' t refl
  valid_elems first (cons n ns) depth t c =
      comma first (encode n ++ encode_elems false ns) t
      ∙ ap (valid_from 0) (append_assoc (encode n) (encode_elems false ns) t)
      ∙ valid_encode n depth (encode_elems false ns ++ t) (ground arith)
      ∙ valid_elems false ns depth t (ground arith)

  valid_fields :
      (first : Bool) (fs : Fields) (depth : ℕ) (t : Bytes)
      → check_fields fs depth ≡ true
      → valid_from 0 (encode_fields first fs ++ t) ≡ valid_from 0 t
  valid_fields first last depth t c = valid_punct b'}' t refl
  valid_fields first (field k v fs) depth t c =
      let rest : Bytes = encode v ++ encode_fields false fs in
      comma first (append_string k ++ (b':' ∷ rest)) t
      ∙ ap (valid_from 0) (append_assoc (append_string k) (b':' ∷ rest) t)
      ∙ valid_text k (b':' ∷ (rest ++ t)) (ground arith)
      ∙ valid_punct b':' (rest ++ t) refl
      ∙ ap (valid_from 0) (append_assoc (encode v) (encode_fields false fs) t)
      ∙ valid_encode v depth (encode_fields false fs ++ t) (ground arith)
      ∙ valid_fields false fs depth t (ground arith)
