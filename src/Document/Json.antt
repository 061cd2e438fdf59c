-- ===== src/Document/Json.antt =====
-- model/document/json.go: `Parse` and `Encode`. A value's call of `object` and `array` takes fuel, as each of their
-- rounds does; an array's or object's size, which the source works out to allocate it once, is left out.
use snapshot_engine.Shared.{
  ℕ, zero, suc, ◌+◌, ◌*◌, Bool, true, false, not, ◌&&◌, ◌||◌, List, [], ◌∷◌, ◌++◌, ltb, nat_beq,
  if◌then◌else◌, length, drop, Bytes, codes, String, ◌==◌, bytes_comparable,
}
use snapshot_engine.Merge.Node.{
  Node, Nodes, Fields, null, boolean, number, text, array, object, nil, cons, last, field,
  object_of, sort_fields,
}
use snapshot_engine.Document.Outcome.{
  Outcome, ok, failed, out_of_fuel, ◌>>=◌, Parser, emit, space, max_depth, max_document,
}
use snapshot_engine.Document.Text.{utf8_valid}
use snapshot_engine.Document.Quoted.{str, quoted_len, append_string}
use snapshot_engine.Document.Decimal.{is_digit, head_is, number_text}

-- p.space()
abbrev pub skip : Parser → Parser
skip p = record p { rest = space p.rest }

abbrev pub advance : ℕ → Parser → Parser
advance n p = record p { rest = drop n p.rest }

abbrev pub has_prefix : Bytes → Bytes → Bool
has_prefix s [] = true
has_prefix [] (w ∷ ws) = false
has_prefix (c ∷ s) (w ∷ ws) = nat_beq c w && has_prefix s ws

abbrev pub at : ℕ → Parser → Bool
at c p = head_is (nat_beq c) p.rest

abbrev pub is_end : Parser → Bool
is_end p = nat_beq (length p.rest) 0

-- A string, and the canonical text that it takes with `more` bytes beside it.
unfoldable pub quoted : ℕ → Parser → Outcome (Bytes × Parser)
quoted more p =
    str (drop 1 p.rest)
    >>= (λ (s, rest). emit (quoted_len s + more) (record p { rest = rest }) >>= (λ q. ok (s, q)))

-- A literal, of the length of its text.
unfoldable pub literal : Node → ℕ → Parser → Outcome (Node × Parser)
literal n size p = emit size (advance size p) >>= (λ q. ok (n, q))

-- Whether two fields that stand together have one name.
unfoldable pub has_twice : List (Bytes × Node) → Bool
has_twice [] = false
has_twice ((k, v) ∷ []) = false
has_twice ((k, v) ∷ (j, w) ∷ fs) =
    let rest = has_twice ((j, w) ∷ fs) in if k == j then true else rest

unfoldable pub close_object : List (Bytes × Node) → Parser → Outcome (Node × Parser)
close_object fs p =
    if has_twice (sort_fields fs)
    then failed "a field twice in one object"
    else ok (object (object_of (sort_fields fs)), p)

abbrev pub nested_past : String
nested_past = "nested past 64 levels"

unfoldable mutual
  pub value : ℕ → ℕ → Parser → Outcome (Node × Parser)
  value zero depth p = out_of_fuel
  value (suc fuel) depth p =
      let in_object = object_at fuel (suc depth) p in
      let in_array = array_at fuel (suc depth) p in
      if is_end p
      then failed "a value is missing"
      else if at b'{' p
      then in_object
      else if at b'[' p
      then in_array
      else if at b'"' p
      then quoted 0 p >>= (λ (s, q). ok (text s, q))
      else if at b'-' p || head_is is_digit p.rest
      then number_text p >>= (λ (t, q). ok (number t, q))
      else if has_prefix p.rest (codes "true")
      then literal (boolean true) 4 p
      else if has_prefix p.rest (codes "false")
      then literal (boolean false) 5 p
      else if has_prefix p.rest (codes "null")
      then literal null 4 p
      else failed "not a value"

  -- The opening brace is at the front.
  pub object_at : ℕ → ℕ → Parser → Outcome (Node × Parser)
  object_at zero depth p = out_of_fuel
  object_at (suc fuel) depth p =
      let q = skip (advance 1 p) in
      let fields = emit 1 q >>= (λ r. fields_at fuel depth r) in
      if ltb max_depth depth
      then failed nested_past
      else if at b'}' q
      then emit 2 (advance 1 q) >>= (λ r. ok (object last, r))
      else fields >>= (λ (fs, r). close_object fs r)

  -- A field and those after it, up to the closing brace.
  pub fields_at : ℕ → ℕ → Parser → Outcome (List (Bytes × Node) × Parser)
  fields_at zero depth p = out_of_fuel
  fields_at (suc fuel) depth p =
      if not (at b'"' (skip p))
      then failed "a field name is missing"
      else quoted 2 (skip p) >>= (λ (name, q).
        if not (at b':' (skip q))
        then failed "a colon is missing"
        else value fuel depth (skip (advance 1 (skip q))) >>= (λ (v, r).
          if is_end (skip r) then failed "an object is not closed" else elim (at b',' (skip r)) [
            | true ↦
                fields_at fuel depth (advance 1 (skip r)) >>= (λ (fs, t). ok ((name, v) ∷ fs, t))
            | false ↦
                if at b'}' (skip r)
                then ok ((name, v) ∷ [], advance 1 (skip r))
                else failed "a comma or a closing brace is missing"
          ]))

  -- The opening bracket is at the front.
  pub array_at : ℕ → ℕ → Parser → Outcome (Node × Parser)
  array_at zero depth p = out_of_fuel
  array_at (suc fuel) depth p =
      let q = skip (advance 1 p) in
      let elems = emit 1 q >>= (λ r. elems_at fuel depth r) in
      if ltb max_depth depth
      then failed nested_past
      else if at b']' q
      then emit 2 (advance 1 q) >>= (λ r. ok (array nil, r))
      else elems >>= (λ (ns, r). ok (array ns, r))

  -- An element and those after it, up to the closing bracket.
  pub elems_at : ℕ → ℕ → Parser → Outcome (Nodes × Parser)
  elems_at zero depth p = out_of_fuel
  elems_at (suc fuel) depth p = value fuel depth (skip p) >>= (λ (v, q).
      if is_end (skip q)
      then failed "an array is not closed"
      else emit 1 (skip q) >>= (λ r. elim (at b',' r) [
        | true ↦ elems_at fuel depth (advance 1 r) >>= (λ (ns, t). ok (cons v ns, t))
        | false ↦
            if at b']' r
            then ok (cons v nil, advance 1 r)
            else failed "a comma or a closing bracket is missing"
      ]))

abbrev pub start : Bytes → Parser
start s = record { rest = s; out = 0 }

-- Every call of `value` and of its loops but one in three reads a byte.
abbrev pub parse_fuel : Bytes → ℕ
parse_fuel s = 3 * length s + 3

-- Nothing but space may follow the value.
abbrev pub finish : Node × Parser → Outcome Node
finish (n, p) = if is_end (skip p) then ok n else failed "bytes after the value"

unfoldable pub parse : Bytes → Outcome Node
parse s =
    if ltb max_document (length s)
    then failed "over the limit of 1048576 bytes"
    else if not (utf8_valid s)
    then failed "not UTF-8"
    else value (parse_fuel s) 0 (skip (start s)) >>= finish

unfoldable mutual
  pub encode : Node → Bytes
  encode null = codes "null"
  encode (boolean b) = if b then codes "true" else codes "false"
  encode (number s) = s
  encode (text s) = append_string s
  encode (array ns) = b'[' ∷ encode_elems true ns
  encode (object fs) = b'{' ∷ encode_fields true fs

  pub encode_elems : Bool → Nodes → Bytes
  encode_elems first nil = b']' ∷ []
  encode_elems first (cons n ns) =
      (if first then [] else b',' ∷ []) ++ (encode n ++ encode_elems false ns)

  pub encode_fields : Bool → Fields → Bytes
  encode_fields first last = b'}' ∷ []
  encode_fields first (field k v fs) =
      (if first then [] else b',' ∷ [])
      ++ (append_string k ++ (b':' ∷ (encode v ++ encode_fields false fs)))
