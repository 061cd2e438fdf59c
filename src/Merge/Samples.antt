-- ===== src/Merge/Samples.antt =====
-- merge/: small values, tests on them, and the theorems at them.
use snapshot_engine.Shared.{
  ℕ, ◌-◌, ◌^◌, ◌≡◌, ◌↔◌, ◌⊎◌, inl, inr, refl, Bool, true, false, not, ◌&&◌, ◌||◌, some, List, [],
  ◌∷◌, ◌++◌, arith, Bytes, bytes_comparable, ◌==◌, codes, find, put, itoa, is_some, Bool-cases,
}
use snapshot_engine.Merge.Types.{FieldPath, Result, clean}
use snapshot_engine.Merge.Scalar.{scalar, counter, scalar_lem, counter_lem}
use snapshot_engine.Merge.Sets.{
  Tagged, Members, at_key, merge_sets, keep_ours, keep_added, tagged_eq, at_key-merge_sets,
}
use snapshot_engine.Merge.Sequence.{
  kept_both, less_keys, resolve, resolve_slices, Matches, plain, walk,
}
use snapshot_engine.Merge.Symmetry.{keyed?, swap_matches, walk_comm}
use snapshot_engine.Merge.Stretches.{walk_total}
use snapshot_engine.Merge.Node.{
  Node, null, boolean, text, array, object, nil, cons, last, field, sort_fields, insert_field,
  equal,
}
use snapshot_engine.Merge.Equality.{equal_iff}
use snapshot_engine.Merge.Tree.{
  Log, Merger, same, merge_names, merge_fields, merge_changed, merge_plain, tree, insert_name,
  sorted_names,
}
use snapshot_engine.Merge.Leaves.{node_comparable, tree_leaf}
use snapshot_engine.Merge.FieldMerge.{IsMergedObject, merge_fields_lem}

abbrev apple : Bytes
apple = codes "a"

abbrev berry : Bytes
berry = codes "b"

abbrev cedar : Bytes
cedar = codes "c"

scalar_lem_example :
    ((clean (scalar apple berry apple) ≡ true)
      ↔ (berry ≡ apple) ⊎ (berry ≡ apple) ⊎ (apple ≡ apple))
    × (berry ≡ apple → (scalar apple berry apple).value ≡ apple)
    × (apple ≡ apple → (scalar apple berry apple).value ≡ berry)
    × (berry ≡ apple → (scalar apple berry apple).value ≡ berry)
    × (clean (scalar apple berry apple) ≡ false → (scalar apple berry apple).value ≡ apple)
scalar_lem_example = scalar_lem apple berry apple

-- 10 went up by 3 on one side, down by 4 on the other and up by 1 on a third.
counter_lem_example :
    (counter 10 13 10 ≡ 13)
    × (counter 10 10 6 ≡ 6)
    × (counter 10 13 6 ≡ counter 10 6 13)
    × (counter 10 (counter 10 13 6) 11 ≡ counter 10 13 (counter 10 6 11))
counter_lem_example = counter_lem 10 13 6 11 (omega arith) (omega arith) (omega arith) (omega arith)

-- A counter that wraps round.
counter_wraps : counter 0 (2 ^ 64 - 1) (2 ^ 64 - 1) ≡ 2 ^ 64 - 2
unfolding counter
counter_wraps = omega arith

abbrev tagged : Bytes → ℕ → Tagged Bytes
tagged x n = record { elem = x; tag = n }

-- Theirs removed the apple, and ours added a cedar.
abbrev base_set : Members Bytes
base_set = (tagged apple 1, true) ∷ (tagged berry 2, true) ∷ []

abbrev our_set : Members Bytes
our_set = (tagged apple 1, true) ∷ (tagged berry 2, true) ∷ (tagged cedar 3, true) ∷ []

abbrev their_set : Members Bytes
their_set = (tagged berry 2, true) ∷ []

at_key-merge_sets_example : at_key (merge_sets base_set our_set their_set) (tagged apple 1) ≡ (
    (at_key our_set (tagged apple 1) && at_key their_set (tagged apple 1))
    || ((at_key our_set (tagged apple 1) || at_key their_set (tagged apple 1))
        && not (at_key base_set (tagged apple 1))))
at_key-merge_sets_example =
    at_key-merge_sets base_set our_set their_set (tagged apple 1) (refl, (refl, (refl, tt)))
      (refl, tt)

merged_set :
    merge_sets base_set our_set their_set ≡ (tagged berry 2, true) ∷ (tagged cedar 3, true) ∷ []
unfolding merge_sets keep_ours keep_added at_key tagged_eq find put
merged_set = refl

abbrev itself : Bytes → Bytes
itself x = x

abbrev one_key : List Bytes
one_key = apple ∷ []

abbrev two_keys : List Bytes
two_keys = apple ∷ berry ∷ []

-- Ours put a berry after the apple, theirs a cedar.
abbrev matched : Matches
matched = (some 0, some 0) ∷ []

walk_comm_example :
    keyed? itself (walk itself one_key two_keys (apple ∷ cedar ∷ []) matched 0 0 0 0 (plain []))
    ≡ keyed? itself (
        walk itself one_key (apple ∷ cedar ∷ []) two_keys (swap_matches matched) 0 0 0 0 (plain []))
walk_comm_example =
    walk_comm itself one_key two_keys (apple ∷ cedar ∷ []) matched 0 0 0 0 (plain []) (plain [])
      ((apple, apple, refl, refl, refl), tt) refl

walked :
    walk itself one_key two_keys (apple ∷ cedar ∷ []) matched 0 0 0 0 (plain [])
    ≡ some (record {
      value = apple ∷ berry ∷ cedar ∷ [];
      conflicts = [];
      flagged = record { path = codes "1" ∷ []; reason = kept_both } ∷ [];
    })
unfolding walk resolve resolve_slices less_keys itoa
walked = refl

walk_total_example :
    (r : Result (List Bytes)) × (walk itself one_key two_keys
        (apple ∷ cedar ∷ [])
        matched
        0
        0
        0
        0
        (plain [])
      ≡ some r)
walk_total_example =
    walk_total itself one_key two_keys (apple ∷ cedar ∷ []) matched 0 0 0 0 (plain []) (omega arith)
      refl (omega arith, omega arith, omega arith, omega arith, (omega arith, omega arith))

-- [[]], and {"a": null}
abbrev nested : Node
nested = array (cons (array nil) nil)

abbrev small_object : Node
small_object = object (field apple null last)

equal_iff_example : (equal nested small_object ≡ true) ↔ (nested ≡ small_object)
equal_iff_example = equal_iff nested small_object

abbrev no_counter : FieldPath → Bool
no_counter path = false

tree_leaf_example :
    tree itself no_counter null (text apple) (text berry)
    ≡ some (scalar null (text apple) (text berry))
tree_leaf_example = tree_leaf itself no_counter null (text apple) (text berry) refl refl refl refl

-- The base has a, ours changed it, and theirs added b.
abbrev fields_base : List (Bytes × Node)
fields_base = (apple, null) ∷ []

abbrev fields_ours : List (Bytes × Node)
fields_ours = (apple, text cedar) ∷ []

abbrev fields_theirs : List (Bytes × Node)
fields_theirs = (apple, null) ∷ (berry, boolean true) ∷ []

abbrev plain_at : Merger
plain_at = merge_plain itself no_counter

abbrev empty_log : Log
empty_log = record { conflicts = []; flagged = [] }

plain_at_total :
    (x : Bytes) (log : Log)
    → is_some (
        plain_at
          ([] ++ (x ∷ []))
          (find x fields_base)
          (find x fields_ours)
          (find x fields_theirs)
          log)
      ≡ true
unfolding merge_plain merge_changed same find equal
plain_at_total x log = elim (Bool-cases (apple == x)) [
  | inl a ↦ rw a refl
  | inr na ↦ elim (Bool-cases (berry == x)) [
    | inl b ↦ rw na (rw b refl)
    | inr nb ↦ rw na (rw nb refl)
  ]
]

merge_fields_lem_example :
    (log' : Log) × (out : List (Bytes × Node)) × IsMergedObject plain_at [] fields_base fields_ours
      fields_theirs empty_log log' out
merge_fields_lem_example =
    merge_fields_lem plain_at [] fields_base fields_ours fields_theirs plain_at_total empty_log

merged_fields :
    merge_fields plain_at [] fields_base fields_ours fields_theirs empty_log
    ≡ some (empty_log, some (object (field apple (text cedar) (field berry (boolean true) last))))
unfolding merge_fields merge_names sorted_names insert_name merge_plain same find sort_fields
    insert_field equal
merged_fields = refl
