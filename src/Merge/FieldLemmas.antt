-- ===== src/Merge/FieldLemmas.antt =====
-- merge/tree.go: what the lists of names and fields that `mergeFields` builds hold.
use snapshot_engine.Shared.{
  ◌≡◌, refl, ap, ◌∙◌, Bool, true, false, ◌||◌, some, List, [], ◌∷◌, arith, if◌then◌else◌, any,
  Bytes, bytes_lt, bytes_comparable, ◌==◌, find, is_some,
}
use snapshot_engine.Merge.Node.{Node, fields_of, object_of, insert_field, sort_fields}
use snapshot_engine.Merge.Tree.{insert_name, sorted_names}

bytes_lt_ne : (x y : Bytes) → bytes_lt x y ≡ true → (x == y) ≡ false
bytes_lt_ne [] [] h = cc
bytes_lt_ne [] (y ∷ ys) h = refl
bytes_lt_ne (x ∷ xs) [] h = refl
bytes_lt_ne (x ∷ xs) (y ∷ ys) h = ground (arith, bytes_lt_ne xs ys)

-- An insertion is found, and every other name is found as before.
find-insert_field :
    (k j : Bytes) (v : Node) (fs : List (Bytes × Node))
    → find j (insert_field k v fs) ≡ (if k == j then some v else find j fs)
unfolding find insert_field
find-insert_field k j v [] = refl
find-insert_field k j v ((i, w) ∷ fs) = ground (
  arith,
  find-insert_field k j v fs,
  bytes_lt_ne i k,
  bytes_comparable.eq_iff k j,
  bytes_comparable.eq_iff i j,
  bytes_comparable.eq_iff i k,
)

pub find-sort_fields : (j : Bytes) (fs : List (Bytes × Node)) → find j (sort_fields fs) ≡ find j fs
unfolding find sort_fields
find-sort_fields j [] = refl
find-sort_fields j ((k, v) ∷ fs) =
    find-insert_field k j v (sort_fields fs)
    ∙ ap (λ r. if k == j then some v else r) (find-sort_fields j fs)

pub fields_of-object_of : (fs : List (Bytes × Node)) → fields_of (object_of fs) ≡ fs
fields_of-object_of [] = refl
fields_of-object_of ((k, v) ∷ fs) = ap (λ r. (k, v) ∷ r) (fields_of-object_of fs)

abbrev pub mem_name : Bytes → List Bytes → Bool
mem_name x = any (λ k. k == x)

mem_name-insert_name :
    (x k : Bytes) (names : List Bytes)
    → mem_name x (insert_name k names) ≡ (k == x || mem_name x names)
unfolding insert_name
mem_name-insert_name x k [] = refl
mem_name-insert_name x k (j ∷ names) =
    ground (arith, mem_name-insert_name x k names, bytes_comparable.eq_iff k j)

-- The names gathered are those of the fields and those there before.
pub mem_name-sorted_names :
    (x : Bytes) (fs : List (Bytes × Node)) (names : List Bytes)
    → mem_name x (sorted_names fs names) ≡ (is_some (find x fs) || mem_name x names)
unfolding sorted_names find
mem_name-sorted_names x [] names = refl
mem_name-sorted_names x ((k, v) ∷ fs) names =
    ground (arith, mem_name-sorted_names x fs (insert_name k names), mem_name-insert_name x k names)
