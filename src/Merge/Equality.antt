-- ===== src/Merge/Equality.antt =====
-- merge/tree.go: `equal` decides equality, and `deeper` measures the nesting.
use snapshot_engine.Shared.{
  ℕ, zero, suc, ◌≡◌, ◌↔◌, refl, ap, Bool, true, ◌&&◌, arith, ltb, Bytes, ◌==◌, bytes_comparable,
}
use snapshot_engine.Merge.Node.{
  Node, Nodes, Fields, null, boolean, number, text, array, object, nil, cons, last, field, deeper,
  elems_deeper, fields_deeper, equal, elems_equal, fields_equal, depth, elems_depth, fields_depth,
}

mutual
  unfolding deeper depth

  deeper_node : (n : Node) (limit : ℕ) → deeper n limit ≡ ltb limit (depth n)
  deeper_node null limit = ground arith
  deeper_node (boolean b) limit = ground arith
  deeper_node (number s) limit = ground arith
  deeper_node (text s) limit = ground arith
  deeper_node (array ns) zero = ground arith
  deeper_node (array ns) (suc limit) = ground (arith, deeper_elems ns limit)
  deeper_node (object fs) zero = ground arith
  deeper_node (object fs) (suc limit) = ground (arith, deeper_fields fs limit)

  deeper_elems : (ns : Nodes) (limit : ℕ) → elems_deeper ns limit ≡ ltb limit (elems_depth ns)
  deeper_elems nil limit = ground arith
  deeper_elems (cons n ns) limit = ground (arith, deeper_node n limit, deeper_elems ns limit)

  deeper_fields : (fs : Fields) (limit : ℕ) → fields_deeper fs limit ≡ ltb limit (fields_depth fs)
  deeper_fields last limit = ground arith
  deeper_fields (field k v fs) limit = ground (arith, deeper_node v limit, deeper_fields fs limit)

-- A value is deeper than a limit exactly when it nests more arrays and objects than that.
pub deeper_lem : (n : Node) (limit : ℕ) → deeper n limit ≡ ltb limit (depth n)
deeper_lem n limit = deeper_node n limit

and_parts : (p q r : Bool) → ((p && q) && r) ≡ true → (p ≡ true) × (q ≡ true) × (r ≡ true)
and_parts p q r e = ground arith

field_path :
    {j k : Bytes} {a b : Node} {fs gs : Fields}
    → j ≡ k
    → a ≡ b
    → fs ≡ gs
    → field j a fs ≡ field k b gs
field_path p q r = cc

mutual
  unfolding equal

  equal_sound : (a b : Node) → equal a b ≡ true → a ≡ b
  equal_sound null null e = refl
  equal_sound (boolean a) (boolean b) e = ground arith
  equal_sound (number a) (number b) e = ground (arith, bytes_comparable.eq_iff a b)
  equal_sound (text a) (text b) e = ground (arith, bytes_comparable.eq_iff a b)
  equal_sound (array a) (array b) e = ap array (elems_sound a b e)
  equal_sound (object a) (object b) e = ap object (fields_sound a b e)
  equal_sound _ _ e = cc

  elems_sound : (a b : Nodes) → elems_equal a b ≡ true → a ≡ b
  elems_sound nil nil e = refl
  elems_sound (cons a as') (cons b bs) e = ground (arith, equal_sound a b, elems_sound as' bs)
  elems_sound _ _ e = cc

  fields_sound : (a b : Fields) → fields_equal a b ≡ true → a ≡ b
  fields_sound last last e = refl
  fields_sound (field j a as') (field k b bs) e =
      let (p, q, r) = and_parts (j == k) (equal a b) (fields_equal as' bs) e in
      field_path ((bytes_comparable.eq_iff j k).0 p) (equal_sound a b q) (fields_sound as' bs r)
  fields_sound _ _ e = cc

mutual
  unfolding equal

  equal_self : (a : Node) → equal a a ≡ true
  equal_self null = refl
  equal_self (boolean a) = ground arith
  equal_self (number a) = (bytes_comparable.eq_iff a a).1 refl
  equal_self (text a) = (bytes_comparable.eq_iff a a).1 refl
  equal_self (array a) = elems_self a
  equal_self (object a) = fields_self a

  elems_self : (a : Nodes) → elems_equal a a ≡ true
  elems_self nil = refl
  elems_self (cons a as') = ground (arith, equal_self a, elems_self as')

  fields_self : (a : Fields) → fields_equal a a ≡ true
  fields_self last = refl
  fields_self (field j a as') =
      ground (arith, bytes_comparable.eq_iff j j, equal_self a, fields_self as')

-- Two values that `equal` calls the same are the same, and the other way round.
pub equal_iff : (a b : Node) → (equal a b ≡ true) ↔ (a ≡ b)
equal_iff a b = (equal_sound a b, λ e. rw e (equal_self b))
