-- ===== src/Merge/Node.antt =====
-- merge/tree.go: JSON-like values. A `Node` is a data type with a constructor for each Kind, and the field of the
-- source's struct that the Kind selects; its lists are types of the same block. Strings are bytes.
use snapshot_engine.Shared.{
  ℕ, zero, suc, Bool, true, false, not, ◌&&◌, ◌||◌, List, [], ◌∷◌, Bytes, ◌==◌, bytes_comparable,
  if◌then◌else◌, bytes_lt,
}
use Prim.Native.Nat.{max}

mutual
  pub data Node : Type 0 where
    null : Node
    boolean : Bool → Node
    number : Bytes → Node
    text : Bytes → Node
    array : Nodes → Node
    object : Fields → Node

  pub data Nodes : Type 0 where
    nil : Nodes
    cons : Node → Nodes → Nodes

  pub data Fields : Type 0 where
    last : Fields
    field : Bytes → Node → Fields → Fields

abbrev pub elems_of : Nodes → List Node
elems_of nil = []
elems_of (cons n ns) = n ∷ elems_of ns

abbrev pub array_of : List Node → Nodes
array_of [] = nil
array_of (n ∷ ns) = cons n (array_of ns)

abbrev pub fields_of : Fields → List (Bytes × Node)
fields_of last = []
fields_of (field k v fs) = (k, v) ∷ fields_of fs

abbrev pub object_of : List (Bytes × Node) → Fields
object_of [] = last
object_of ((k, v) ∷ fs) = field k v (object_of fs)

-- `Obj` sorts its fields by name; the sort's order of equal names is the sort's own, and kept here.
unfoldable pub insert_field : Bytes → Node → List (Bytes × Node) → List (Bytes × Node)
insert_field k v [] = (k, v) ∷ []
insert_field k v ((j, w) ∷ fs) =
    let rest = insert_field k v fs in if bytes_lt j k then (j, w) ∷ rest else (k, v) ∷ (j, w) ∷ fs

unfoldable pub sort_fields : List (Bytes × Node) → List (Bytes × Node)
sort_fields [] = []
sort_fields ((k, v) ∷ fs) = insert_field k v (sort_fields fs)

abbrev pub obj : List (Bytes × Node) → Node
obj fs = object (object_of (sort_fields fs))

-- Whether a value nests more than `limit` arrays and objects.
unfoldable mutual
  pub deeper : Node → ℕ → Bool
  deeper null limit = false
  deeper (boolean b) limit = false
  deeper (number s) limit = false
  deeper (text s) limit = false
  deeper (array ns) zero = true
  deeper (array ns) (suc limit) = elems_deeper ns limit
  deeper (object fs) zero = true
  deeper (object fs) (suc limit) = fields_deeper fs limit

  pub elems_deeper : Nodes → ℕ → Bool
  elems_deeper nil limit = false
  elems_deeper (cons n ns) limit = deeper n limit || elems_deeper ns limit

  pub fields_deeper : Fields → ℕ → Bool
  fields_deeper last limit = false
  fields_deeper (field k v fs) limit = deeper v limit || fields_deeper fs limit

-- Whether two nodes are the same value, part by part.
unfoldable mutual
  pub equal : Node → Node → Bool
  equal null null = true
  equal (boolean a) (boolean b) = if a then b else not b
  equal (number a) (number b) = a == b
  equal (text a) (text b) = a == b
  equal (array a) (array b) = elems_equal a b
  equal (object a) (object b) = fields_equal a b
  equal _ _ = false

  pub elems_equal : Nodes → Nodes → Bool
  elems_equal nil nil = true
  elems_equal (cons a as') (cons b bs) = equal a b && elems_equal as' bs
  elems_equal _ _ = false

  pub fields_equal : Fields → Fields → Bool
  fields_equal last last = true
  fields_equal (field j a as') (field k b bs) = (j == k && equal a b) && fields_equal as' bs
  fields_equal _ _ = false

-- How many arrays and objects a value nests.
unfoldable mutual
  pub depth : Node → ℕ
  depth null = 0
  depth (boolean b) = 0
  depth (number s) = 0
  depth (text s) = 0
  depth (array ns) = suc (elems_depth ns)
  depth (object fs) = suc (fields_depth fs)

  pub elems_depth : Nodes → ℕ
  elems_depth nil = 0
  elems_depth (cons n ns) = max (depth n) (elems_depth ns)

  pub fields_depth : Fields → ℕ
  fields_depth last = 0
  fields_depth (field k v fs) = max (depth v) (fields_depth fs)
