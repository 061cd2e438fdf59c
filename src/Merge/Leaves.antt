-- ===== src/Merge/Leaves.antt =====
-- merge/tree.go: on values with no parts, `Tree` is `Scalar`; at a counter's path it is `Counter`.
use snapshot_engine.Shared.{
  ℕ, suc, ◌≡◌, refl, Bool, true, false, Option, some, [], arith, Bytes, Comparable,
}
use snapshot_engine.Merge.Types.{FieldPath}
use snapshot_engine.Merge.Scalar.{scalar}
use snapshot_engine.Merge.Node.{Node, null, number, array, object, deeper, equal}
use snapshot_engine.Merge.Equality.{equal_iff}
use snapshot_engine.Merge.Tree.{
  Log, report, changed_to_different, same, merge_changed, merge_plain, merge_node, tree,
}

instance abbrev pub node_comparable : Comparable Node
node_comparable = record { eq = equal; eq_iff = equal_iff }

-- A value with no parts.
abbrev pub is_leaf : Node → Bool
is_leaf (array _) = false
is_leaf (object _) = false
is_leaf _ = true

deeper_leaf : (n : Node) (limit : ℕ) → is_leaf n ≡ true → deeper n limit ≡ false
unfolding deeper
deeper_leaf (array ns) limit h = cc
deeper_leaf (object fs) limit h = cc
deeper_leaf _ limit h = refl

module _ (quote : Bytes → Bytes) (is_counter : FieldPath → Bool) where
  node_leaf :
      (fuel : ℕ) (path : FieldPath) (b : Option Node) (o : Node) (t : Option Node) (log : Log)
      → is_leaf o ≡ true
      → merge_node quote is_counter (suc fuel) path b (some o) t log
        ≡ merge_plain quote is_counter path b (some o) t log
  unfolding merge_node
  node_leaf fuel path b (array ns) t log h = cc
  node_leaf fuel path b (object fs) t log h = cc
  node_leaf fuel path b _ t log h = refl

  changed_leaf :
      (path : FieldPath) (b : Option Node) (o t : Node) (log : Log)
      → is_leaf o ≡ true
      → is_leaf t ≡ true
      → is_counter path ≡ false
      → merge_changed quote is_counter path b o t log
        ≡ some (report path changed_to_different log, b)
  unfolding merge_changed
  changed_leaf path b (array ns) t log h k n = cc
  changed_leaf path b (object ns) t log h k n = cc
  changed_leaf path b (number o) (array ns) log h k n = cc
  changed_leaf path b (number o) (object ns) log h k n = cc
  changed_leaf path b (number o) (number t) log h k n = ground arith
  changed_leaf path b (number o) _ log h k n = refl
  changed_leaf path b null t log h k n = refl
  changed_leaf path b _ t log h k n = refl

  -- On three values with no parts, at a root that is no counter, a tree merge is a scalar merge: value, conflict and all.
  pub tree_leaf :
      (b o t : Node)
      → is_leaf b ≡ true
      → is_leaf o ≡ true
      → is_leaf t ≡ true
      → is_counter [] ≡ false
      → tree quote is_counter b o t ≡ some (scalar b o t)
  unfolding tree scalar merge_plain same
  tree_leaf b o t hb ho ht n =
      let log : Log = record { conflicts = []; flagged = [] } in
      ground (
        arith,
        deeper_leaf b 64 hb,
        deeper_leaf o 64 ho,
        deeper_leaf t 64 ht,
        node_leaf 64 [] (some b) o (some t) log ho,
        changed_leaf [] (some b) o t log ho ht n,
      )
