-- ===== src/Document/Fronts.antt =====
-- model/document/json.go: one step of the parser at the front of what the printer wrote.
use snapshot_engine.Shared.{
  ℕ, ◌+◌, ◌≤◌, ◌≡◌, refl, ap, ◌∙◌, Bool, true, false, ◌||◌, [], ◌∷◌, ◌++◌, nat_beq, length, Bytes,
  arith, bytes_comparable, ◌==◌, bytes_lt,
}
use snapshot_engine.Merge.Node.{
  Node, Fields, null, boolean, number, text, array, object, last, field, fields_of, object_of,
  sort_fields, insert_field,
}
use snapshot_engine.Document.Outcome.{ok, Parser, emit, max_document, is_space, space}
use snapshot_engine.Document.Text.{utf8_valid}
use snapshot_engine.Document.Quoted.{append_string}
use snapshot_engine.Document.Decimal.{is_digit, head_is}
use snapshot_engine.Document.Validity.{str-string_end, quoted_len_lem}
use snapshot_engine.Document.Json.{at, is_end, quoted, has_twice, close_object, encode}
use snapshot_engine.Document.Record.{check, check_fields, check_after}
use snapshot_engine.Document.Canonical.{is_canonical-IsNumeral}

abbrev pub state : Bytes → ℕ → Parser
state s out = record { rest = s; out = out }

pub emit_fits :
    (n : ℕ) (s : Bytes) (out : ℕ)
    → out + n ≤ max_document
    → emit n (state s out) ≡ ok (state s (out + n))
unfolding emit
emit_fits n s out h = ground arith

pub is_end_cons : (c : ℕ) (s : Bytes) (out : ℕ) → is_end (state (c ∷ s) out) ≡ false
is_end_cons c s out = ground arith

pub space_cons : (c : ℕ) (s : Bytes) → is_space c ≡ false → space (c ∷ s) ≡ c ∷ s
unfolding space
space_cons c s h = rw h refl

-- A string that was written is read and counted.
pub quoted_written :
    (s rest : Bytes) (out more : ℕ)
    → utf8_valid s ≡ true
    → out + (length (append_string s) + more) ≤ max_document
    → quoted more (state (append_string s ++ rest) out)
      ≡ ok (s, state rest (out + (length (append_string s) + more)))
unfolding quoted append_string
quoted_written s rest out more v h = rw (str-string_end s rest v) (
    rw (quoted_len_lem s)
      (unfold append_string in rw (emit_fits (length (append_string s) + more) rest out h) refl))

-- A byte that a value can begin with.
abbrev pub is_front : ℕ → Bool
is_front c =
    nat_beq b'-' c
    || (is_digit c
        || (nat_beq c b'"'
            || (nat_beq c b'['
                || (nat_beq c b'{' || (nat_beq c b'n' || (nat_beq c b't' || nat_beq c b'f'))))))

front_number :
    (s : Bytes)
    → (head_is (nat_beq b'-') s || head_is is_digit s) ≡ true
    → head_is is_front s ≡ true
front_number [] h = cc
front_number (c ∷ s) h = ground (arith, h)

-- What is written for a value begins with such a byte.
pub front_encode :
    (v : Node) (depth : ℕ) → check v depth ≡ true → head_is is_front (encode v) ≡ true
unfolding encode append_string check
front_encode null depth h = refl
front_encode (boolean true) depth h = refl
front_encode (boolean false) depth h = refl
front_encode (number s) depth h = front_number s (is_canonical-IsNumeral s h).fronted
front_encode (text s) depth h = refl
front_encode (array ns) depth h = refl
front_encode (object fs) depth h = refl

pub space_front : (s rest : Bytes) → head_is is_front s ≡ true → space (s ++ rest) ≡ s ++ rest
space_front [] rest h = cc
space_front (c ∷ s) rest h = space_cons c (s ++ rest) (ground arith)

pub no_bracket :
    (s rest : Bytes) (out : ℕ) → head_is is_front s ≡ true → at b']' (state (s ++ rest) out) ≡ false
no_bracket [] rest out h = cc
no_bracket (c ∷ s) rest out h = ground arith

bytes_lt_asym : (x y : Bytes) → bytes_lt x y ≡ true → bytes_lt y x ≡ false
bytes_lt_asym [] [] h = cc
bytes_lt_asym [] (y ∷ ys) h = refl
bytes_lt_asym (x ∷ xs) [] h = cc
bytes_lt_asym (x ∷ xs) (y ∷ ys) h = ground (arith, bytes_lt_asym xs ys)

bytes_lt_differ : (x y : Bytes) → bytes_lt x y ≡ true → (x == y) ≡ false
bytes_lt_differ [] [] h = cc
bytes_lt_differ [] (y ∷ ys) h = refl
bytes_lt_differ (x ∷ xs) [] h = refl
bytes_lt_differ (x ∷ xs) (y ∷ ys) h = ground (arith, bytes_lt_differ xs ys)

insert_front :
    (k : Bytes) (v : Node) (fs : Fields)
    → check_after k fs ≡ true
    → insert_field k v (fields_of fs) ≡ (k, v) ∷ fields_of fs
unfolding insert_field check
insert_front k v last h = refl
insert_front k v (field j w fs) h = rw (bytes_lt_asym k j h) refl

sorted_same :
    (fs : Fields) (depth : ℕ)
    → check_fields fs depth ≡ true
    → sort_fields (fields_of fs) ≡ fields_of fs
unfolding sort_fields check
sorted_same last depth h = refl
sorted_same (field k v fs) depth h =
    ap (insert_field k v) (sorted_same fs depth (ground arith)) ∙ insert_front k v fs (ground arith)

twice_none :
    (fs : Fields) (depth : ℕ) → check_fields fs depth ≡ true → has_twice (fields_of fs) ≡ false
unfolding has_twice check
twice_none last depth h = refl
twice_none (field k v last) depth h = refl
twice_none (field k v (field j w fs)) depth h =
    rw (bytes_lt_differ k j (ground arith)) (twice_none (field j w fs) depth (ground arith))

object_same : (fs : Fields) → object_of (fields_of fs) ≡ fs
object_same last = refl
object_same (field k v fs) = ap (λ x. field k v x) (object_same fs)

-- Fields that rise are an object's as they are.
pub close_checked :
    (fs : Fields) (depth : ℕ) (p : Parser)
    → check_fields fs depth ≡ true
    → close_object (fields_of fs) p ≡ ok (object fs, p)
unfolding close_object
close_checked fs depth p h =
    rw (sorted_same fs depth h) (rw (twice_none fs depth h) (rw (object_same fs) refl))
