-- ===== src/Merge/Tree.antt =====
-- merge/tree.go: `Tree`, the merge of JSON-like values by path. A *Node that may be nil is an Option. The Result that
-- the source's functions append to is passed on as a `Log`. `mergeNode` recurs through fields, so it takes fuel; a
-- panic of `Sequence` and an end of the fuel are `none`. `strconv.Quote`, which `Canonical` writes strings
-- by, is a parameter.
use snapshot_engine.Shared.{
  ℕ, zero, suc, Bool, true, false, ◌&&◌, ◌||◌, Option, none, some, List, [], ◌∷◌, ◌++◌,
  if◌then◌else◌, Bytes, bytes_lt, bytes_comparable, ◌==◌, codes, find, String,
}
use snapshot_engine.Merge.Types.{FieldPath, Conflict, Result}
use snapshot_engine.Merge.Scalar.{counter}
use snapshot_engine.Merge.Integers.{parse_int, format_int}
use snapshot_engine.Merge.Sequence.{sequence}
use snapshot_engine.Merge.Node.{
  Node, Nodes, Fields, null, boolean, number, text, array, object, nil, cons, last, field, elems_of,
  array_of, fields_of, obj, deeper, equal,
}

abbrev pub max_depth : ℕ
max_depth = 64

pub record Log : Type 0 where
  pub conflicts : List Conflict
  pub flagged : List Conflict

abbrev pub nested_too_deep : String
nested_too_deep = "nested past 64 arrays and objects"

abbrev pub deleted_and_changed : String
deleted_and_changed = "deleted on one side and changed on the other"

abbrev pub changed_to_different : String
changed_to_different = "both sides changed it, to different values"

abbrev pub not_an_integer : String
not_an_integer = "a counter that is not an integer"

-- r.Conflicts = append(r.Conflicts, ...)
abbrev pub report : FieldPath → String → Log → Log
report path reason log = record log {
  conflicts = log.conflicts ++ (record { path = path; reason = reason } ∷ []);
}

abbrev below : FieldPath → List Conflict → List Conflict
below path [] = []
below path (c ∷ cs) = record c { path = path ++ c.path } ∷ below path cs

-- The text of a value, with its elements and its fields in order.
unfoldable mutual
  pub canonical : (Bytes → Bytes) → Node → Bytes
  canonical quote null = codes "null"
  canonical quote (boolean b) = if b then codes "true" else codes "false"
  canonical quote (number s) = s
  canonical quote (text s) = quote s
  canonical quote (array ns) = b'[' ∷ canonical_elems quote true ns
  canonical quote (object fs) = b'{' ∷ canonical_fields quote true fs

  pub canonical_elems : (Bytes → Bytes) → Bool → Nodes → Bytes
  canonical_elems quote first nil = b']' ∷ []
  canonical_elems quote first (cons n ns) =
      (if first then [] else b',' ∷ []) ++ (canonical quote n ++ canonical_elems quote false ns)

  pub canonical_fields : (Bytes → Bytes) → Bool → Fields → Bytes
  canonical_fields quote first last = b'}' ∷ []
  canonical_fields quote first (field k v fs) =
      (if first then [] else b',' ∷ [])
      ++ (quote k ++ (b':' ∷ (canonical quote v ++ canonical_fields quote false fs)))

unfoldable pub same : Option Node → Option Node → Bool
same none none = true
same none (some b) = false
same (some a) none = false
same (some a) (some b) = equal a b

-- What `mergeCounter` makes of the counters' texts; an absent base is zero.
unfoldable pub counter_base : Option Node → Option ℕ
counter_base none = some 0
counter_base (some (number s)) = parse_int s
counter_base (some _) = none

unfoldable pub merge_counter : FieldPath → Option Node → Bytes → Bytes → Log → Log × Option Node
merge_counter path b o t log = elim (counter_base b) [
  | none ↦ (report path not_an_integer log, b)
  | some base ↦ elim (parse_int o) [
    | none ↦ (report path not_an_integer log, b)
    | some ours ↦ elim (parse_int t) [
      | none ↦ (report path not_an_integer log, b)
      | some theirs ↦ (log, some (number (format_int (counter base ours theirs))))
    ]
  ]
]

abbrev number_or_none : Option Node → Bool
number_or_none none = true
number_or_none (some (number s)) = true
number_or_none (some _) = false

-- sortedKeys of a set of names: each once, in order.
unfoldable pub insert_name : Bytes → List Bytes → List Bytes
insert_name k [] = k ∷ []
insert_name k (j ∷ ks) =
    let rest = insert_name k ks in
    if k == j then j ∷ ks else if bytes_lt k j then k ∷ (j ∷ ks) else j ∷ rest

unfoldable pub sorted_names : List (Bytes × Node) → List Bytes → List Bytes
sorted_names [] names = names
sorted_names ((k, v) ∷ fs) names = sorted_names fs (insert_name k names)

-- The fields of an object or of nothing; `none` for any other value.
abbrev pub object_or_none : Option Node → Option (List (Bytes × Node))
object_or_none none = some []
object_or_none (some (object fs)) = some (fields_of fs)
object_or_none (some _) = none

abbrev pub Merger : Type 0
Merger = FieldPath → Option Node → Option Node → Option Node → Log → Option (Log × Option Node)

abbrev pub with_field : Bytes → Option Node → List (Bytes × Node) → List (Bytes × Node)
with_field name none out = out
with_field name (some v) out = (name, v) ∷ out

-- The loop of `mergeFields` over the names, each position merged by `merge_at`.
unfoldable pub merge_names :
    Merger
    → FieldPath
    → List (Bytes × Node)
    → List (Bytes × Node)
    → List (Bytes × Node)
    → List Bytes
    → Log
    → Option (Log × List (Bytes × Node))
merge_names merge_at path fb fo ft [] log = some (log, [])
merge_names merge_at path fb fo ft (name ∷ names) log =
    elim (merge_at (path ++ (name ∷ [])) (find name fb) (find name fo) (find name ft) log) [
      | none ↦ none
      | some (log', v) ↦ elim (merge_names merge_at path fb fo ft names log') [
        | none ↦ none
        | some (log'', out) ↦ some (log'', with_field name v out)
      ]
    ]

unfoldable pub merge_fields :
    Merger
    → FieldPath
    → List (Bytes × Node)
    → List (Bytes × Node)
    → List (Bytes × Node)
    → Log
    → Option (Log × Option Node)
merge_fields merge_at path fb fo ft log =
    elim (merge_names merge_at path fb fo ft
      (sorted_names fb (sorted_names fo (sorted_names ft []))) log) [
        | none ↦ none
        | some (log', out) ↦ some (log', some (obj out))
      ]

module _ (quote : Bytes → Bytes) (is_counter : FieldPath → Bool) where
  -- Two present values that differ from one another and from the base.
  unfoldable pub merge_changed :
      FieldPath → Option Node → Node → Node → Log → Option (Log × Option Node)
  merge_changed path b (number o) (number t) log =
      if number_or_none b && is_counter path
      then some (merge_counter path b o t log)
      else some (report path changed_to_different log, b)
  merge_changed path (some (array bs)) (array os) (array ts) log =
      elim (sequence (canonical quote) (elems_of bs) (elems_of os) (elems_of ts)) [
        | none ↦ none
        | some seq ↦ some (
          record {
            conflicts = log.conflicts ++ below path seq.conflicts;
            flagged = log.flagged ++ below path seq.flagged;
          },
          some (array (array_of seq.value)),
        )
      ]
  merge_changed path b _ _ log = some (report path changed_to_different log, b)

  -- The switch of `mergeNode`.
  unfoldable pub merge_plain : Merger
  merge_plain path b o t log =
      if same o t
      then some (log, o)
      else if same o b
      then some (log, t)
      else if same t b
      then some (log, o)
      else elim o [
        | none ↦ some (report path deleted_and_changed log, b)
        | some o' ↦ elim t [
          | none ↦ some (report path deleted_and_changed log, b)
          | some t' ↦ merge_changed path b o' t' log
        ]
      ]

  -- Both sides objects, over an object or nothing, are merged field by field.
  unfoldable pub merge_node : ℕ → Merger
  merge_node zero path b o t log = none
  merge_node (suc fuel) path b (some (object fo)) (some (object ft)) log = elim (object_or_none b) [
    | some fb ↦ merge_fields (merge_node fuel) path fb (fields_of fo) (fields_of ft) log
    | none ↦ merge_plain path b (some (object fo)) (some (object ft)) log
  ]
  merge_node (suc fuel) path b o t log = merge_plain path b o t log

  -- The depth of the values bounds the recursion, so the fuel is one more than the deepest allowed.
  unfoldable pub tree : Node → Node → Node → Option (Result Node)
  tree base ours theirs =
      if deeper base max_depth || (deeper ours max_depth || deeper theirs max_depth)
      then some (record {
        value = base;
        conflicts = record { path = []; reason = nested_too_deep } ∷ [];
        flagged = [];
      })
      else elim (merge_node (suc max_depth) [] (some base) (some ours) (some theirs)
          (record { conflicts = []; flagged = [] })) [
            | none ↦ none
            | some (log, none) ↦
                some (record { value = null; conflicts = log.conflicts; flagged = log.flagged })
            | some (log, some v) ↦
                some (record { value = v; conflicts = log.conflicts; flagged = log.flagged })
          ]
