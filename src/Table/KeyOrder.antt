-- ===== src/Table/KeyOrder.antt =====
-- model/table/store.go: a row's key is read back from its bytes, and the bytes of keys are in the order of the keys.
use snapshot_engine.Shared.{
  ℕ, ◌≡◌, refl, ap, sym, ◌∙◌, Bool, true, false, not, ◌&&◌, ◌||◌, inl, inr, some, List, [], ◌∷◌,
  ◌++◌, nat_beq, nat_beq_iff, Bytes, bytes_lt, length, arith, Bool-cases,
}
use mathlib.Core.List.{append_assoc, append-nil}
use snapshot_engine.Table.Schema.{Schema}
use snapshot_engine.Table.Catalog.{◌>>=◌}
use snapshot_engine.Table.Cell.{Cell, encode_cell}
use snapshot_engine.Table.Numerals.{bind-some}
use snapshot_engine.Table.CellRoundTrip.{Sized, plain, decode_cell-encode_cell}
use snapshot_engine.Table.Precedes.{cell_lt}
use snapshot_engine.Table.CellOrder.{is_numeric, encode_cell-cell_lt}
use snapshot_engine.Table.Keys.{
  KeyValue, cell, row_id, column_of, keyed, encode_cells, decode_cells, encode_row_id, bounded_key,
  encode_key, decode_key,
}

abbrev pub KeySized : List KeyValue → Type 0
KeySized [] = Unit
KeySized (cell v ∷ vs) = Sized v × KeySized vs
KeySized (row_id x ∷ vs) = (length x ≡ 16) × KeySized vs

abbrev pub plain_key : List KeyValue → List KeyValue
plain_key [] = []
plain_key (cell v ∷ vs) = cell (plain v) ∷ plain_key vs
plain_key (row_id x ∷ vs) = row_id x ∷ plain_key vs

-- Two keys, by the first of their values that differ.
abbrev pub key_lt : List KeyValue → List KeyValue → Bool
key_lt (cell v ∷ vs) (cell w ∷ ws) = cell_lt v w || (not (cell_lt w v) && key_lt vs ws)
key_lt _ _ = false

abbrev pub has_numeric : List KeyValue → Bool
has_numeric [] = false
has_numeric (cell v ∷ vs) = is_numeric v || has_numeric vs
has_numeric (row_id x ∷ vs) = has_numeric vs

cells_split :
    (s : Schema) (t : ℕ) (ts : List ℕ) (v : Cell) (vs : List KeyValue) (b : Bytes)
    → encode_cells s (t ∷ ts) (cell v ∷ vs) ≡ some b
    → (x : Bytes) × (y : Bytes) × (encode_cell (column_of s t) v ≡ some x)
      × (encode_cells s ts vs ≡ some y)
      × (x ++ y ≡ b)
unfolding encode_cells
cells_split s t ts v vs b h =
    let (x, wrote, k) =
      bind-some (encode_cell (column_of s t) v) (λ a. encode_cells s ts vs >>= (λ c. some (a ++ c)))
        h in
    let (y, more, l) = bind-some (encode_cells s ts vs) (λ c. some (x ++ c)) k in
    (x, y, wrote, more, ground (arith, l))

decode_cells-encode_cells :
    (s : Schema) (ts : List ℕ) (vs : List KeyValue) (b rest : Bytes)
    → KeySized vs
    → encode_cells s ts vs ≡ some b
    → decode_cells s ts (b ++ rest) ≡ some (plain_key vs, rest)
unfolding decode_cells encode_cells
decode_cells-encode_cells s [] [] b rest z h =
    let made : [] ≡ b = ground (arith, h) in rw⁻¹ made refl
decode_cells-encode_cells s [] (v ∷ vs) b rest z h = cc
decode_cells-encode_cells s (t ∷ ts) [] b rest z h = cc
decode_cells-encode_cells s (t ∷ ts) (row_id x ∷ vs) b rest z h = cc
decode_cells-encode_cells s (t ∷ ts) (cell v ∷ vs) b rest (z, zs) h =
    let (x, y, wrote, more, made) = cells_split s t ts v vs b h in
    rw⁻¹ made (
      rw (append_assoc x y rest) (
        rw (decode_cell-encode_cell (column_of s t) v x (y ++ rest) z wrote)
          (rw (decode_cells-encode_cells s ts vs y rest zs more) refl)))

decode_row_id :
    (s : Schema) (key : List KeyValue) (b : Bytes)
    → keyed s ≡ false
    → KeySized key
    → encode_row_id key ≡ some b
    → decode_key s b ≡ some (plain_key key)
unfolding decode_key
decode_row_id s [] b e z h = cc
decode_row_id s (cell v ∷ vs) b e z h = cc
decode_row_id s (row_id x ∷ (v ∷ vs)) b e z h = cc
decode_row_id s (row_id x ∷ []) b e (z, zs) h =
    let same : x ≡ b = ground (arith, h) in
    let sixteen : nat_beq (length x) 16 ≡ true = (nat_beq_iff (length x) 16).1 z in
    rw⁻¹ same (rw e (rw sixteen refl))

-- A key whose values have the sizes of their Go types is read back, once written, as it is stored.
pub decode_key-encode_key :
    (max_key : ℕ) (s : Schema) (key : List KeyValue) (b : Bytes)
    → KeySized key
    → encode_key max_key s key ≡ some b
    → decode_key s b ≡ some (plain_key key)
unfolding encode_key decode_key
decode_key-encode_key max_key s key b z h = elim (Bool-cases (keyed s)) [
  | inr e ↦ decode_row_id s key b e z (sym (rw e refl) ∙ h)
  | inl e ↦
      let (t, wrote, l) =
        bind-some (encode_cells s s.primary_key key) (bounded_key max_key) (sym (rw e refl) ∙ h) in
      let same : t ≡ b = ground (arith, l) in
      let whole =
        ap (decode_cells s s.primary_key) (sym (append-nil t))
        ∙ decode_cells-encode_cells s s.primary_key key t [] z wrote in
      rw e (rw⁻¹ same (rw whole refl))
]

encode_cells-key_lt :
    (s : Schema) (ts : List ℕ) (vs ws : List KeyValue) (a b : Bytes)
    → KeySized vs
    → KeySized ws
    → has_numeric vs ≡ false
    → encode_cells s ts vs ≡ some a
    → encode_cells s ts ws ≡ some b
    → bytes_lt a b ≡ key_lt vs ws
unfolding encode_cells
encode_cells-key_lt s [] [] [] a b z z' n h k =
    let l : [] ≡ a = ground (arith, h) in let r : [] ≡ b = ground (arith, k) in rw⁻¹ l (rw⁻¹ r refl)
encode_cells-key_lt s [] [] (w ∷ ws) a b z z' n h k = cc
encode_cells-key_lt s [] (v ∷ vs) ws a b z z' n h k = cc
encode_cells-key_lt s (t ∷ ts) [] ws a b z z' n h k = cc
encode_cells-key_lt s (t ∷ ts) (row_id x ∷ vs) ws a b z z' n h k = cc
encode_cells-key_lt s (t ∷ ts) (cell v ∷ vs) [] a b z z' n h k = cc
encode_cells-key_lt s (t ∷ ts) (cell v ∷ vs) (row_id y ∷ ws) a b z z' n h k = cc
encode_cells-key_lt s (t ∷ ts) (cell v ∷ vs) (cell w ∷ ws) a b (z, zs) (z', zs') n h k =
    let (x, y, wrote, more, made) = cells_split s t ts v vs a h in
    let (x', y', wrote', more', made') = cells_split s t ts w ws b k in
    let first =
      encode_cell-cell_lt (column_of s t) v w x x' y y' z z' (ground (arith, n)) wrote wrote' in
    let rest = encode_cells-key_lt s ts vs ws y y' zs zs' (ground (arith, n)) more more' in
    rw⁻¹ made (rw⁻¹ made' (rw first (rw rest refl)))

-- In a table with a primary key, the bytes that are written for two keys are in the keys' order, where their values have
-- the sizes of their Go types and the first has no numeric.
pub encode_key-key_lt :
    (max_key : ℕ) (s : Schema) (key other : List KeyValue) (a b : Bytes)
    → keyed s ≡ true
    → KeySized key
    → KeySized other
    → has_numeric key ≡ false
    → encode_key max_key s key ≡ some a
    → encode_key max_key s other ≡ some b
    → bytes_lt a b ≡ key_lt key other
unfolding encode_key
encode_key-key_lt max_key s key other a b e z z' n h k =
    let (t, wrote, l) =
      bind-some (encode_cells s s.primary_key key) (bounded_key max_key) (sym (rw e refl) ∙ h) in
    let (t', wrote', l') =
      bind-some (encode_cells s s.primary_key other) (bounded_key max_key) (sym (rw e refl) ∙ k) in
    let same : t ≡ a = ground (arith, l) in
    let same' : t' ≡ b = ground (arith, l') in
    rw⁻¹ same (rw⁻¹ same' (encode_cells-key_lt s s.primary_key key other t t' z z' n wrote wrote'))
