-- ===== src/Document/Record.antt =====
-- model/document/record.go: the stored frame of a record.
use snapshot_engine.Shared.{
  ℕ, suc, Bool, true, false, not, ◌&&◌, [], ◌∷◌, ltb, nat_beq, if◌then◌else◌, length, Bytes,
  bytes_lt, ◌==◌, bytes_comparable,
}
use snapshot_engine.Merge.Node.{
  Node, Nodes, Fields, null, boolean, number, text, array, object, nil, cons, last, field,
}
use snapshot_engine.Document.Outcome.{
  Outcome, ok, failed, out_of_fuel, ◌>>=◌, max_depth, max_document,
}
use snapshot_engine.Document.Text.{utf8_valid}
use snapshot_engine.Document.Json.{parse, encode}

abbrev pub format : ℕ
format = 1

-- The outcome is a number of this text.
abbrev pub is_number_of : Bytes → Outcome Node → Bool
is_number_of s (ok (number t)) = t == s
is_number_of s (ok _) = false
is_number_of s (failed why) = false
is_number_of s out_of_fuel = false

-- Is the text what `Parse` gives a number of this text?
unfoldable pub is_canonical : Bytes → Bool
is_canonical s = is_number_of s (parse s)

-- check returns an error where these are false.
unfoldable mutual
  pub check : Node → ℕ → Bool
  check null depth = true
  check (boolean b) depth = true
  check (number s) depth = is_canonical s
  check (text s) depth = utf8_valid s
  check (array ns) depth = not (ltb max_depth (suc depth)) && check_elems ns (suc depth)
  check (object fs) depth = not (ltb max_depth (suc depth)) && check_fields fs (suc depth)

  pub check_elems : Nodes → ℕ → Bool
  check_elems nil depth = true
  check_elems (cons n ns) depth = check n depth && check_elems ns depth

  -- The names rise, from field to field.
  pub check_fields : Fields → ℕ → Bool
  check_fields last depth = true
  check_fields (field k v fs) depth =
      utf8_valid k && (check v depth && (check_after k fs && check_fields fs depth))

  pub check_after : Bytes → Fields → Bool
  check_after k last = true
  check_after k (field j v fs) = bytes_lt k j

unfoldable pub encode_record : Node → Outcome Bytes
encode_record n =
    if not (check n 0)
    then failed "not a document"
    else if ltb max_document (length (encode n))
    then failed "a text over the limit"
    else ok (format ∷ encode n)

abbrev pub canonical_only : Bytes → Node → Outcome Node
canonical_only s n =
    if encode n == s then ok n else failed "a record that is not in its canonical text"

unfoldable pub decode_record : Bytes → Outcome Node
decode_record [] = failed "an empty record"
decode_record (f ∷ s) =
    if not (nat_beq f format)
    then failed "a record of another format"
    else parse s >>= canonical_only s
