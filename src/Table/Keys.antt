-- ===== src/Table/Keys.antt =====
-- model/table/store.go: the keys of rows. A value of a key is a cell or a row id; `max_key` is the storage core's limit
-- on a key.
use snapshot_engine.Shared.{
  ℕ, Bool, false, not, Option, none, some, List, [], ◌∷◌, ◌++◌, ltb, nat_beq, if◌then◌else◌, Bytes,
  length,
}
use snapshot_engine.Table.Schema.{Column, Schema, column}
use snapshot_engine.Table.Catalog.{◌>>=◌}
use snapshot_engine.Table.Cell.{Cell, encode_cell, decode_cell}

pub data KeyValue : Type 0 where
  cell : Cell → KeyValue
  row_id : Bytes → KeyValue

abbrev pub zero_column : Column
zero_column = record { tag = 0; name = []; kind = 0; nullable = false; max_len = 0 }

-- The column of a tag, or Go's zero column.
abbrev pub column_of : Schema → ℕ → Column
column_of s t = elim (column s.columns t) [ none ↦ zero_column | some c ↦ c ]

abbrev pub keyed : Schema → Bool
keyed s = not (nat_beq (length s.primary_key) 0)

abbrev pub encode_key_cell : Column → KeyValue → Option Bytes
encode_key_cell c (cell v) = encode_cell c v
encode_key_cell c (row_id x) = none

-- The cells of a key's columns; a key of another length has none.
unfoldable pub encode_cells : Schema → List ℕ → List KeyValue → Option Bytes
encode_cells s [] [] = some []
encode_cells s [] (v ∷ vs) = none
encode_cells s (t ∷ ts) [] = none
encode_cells s (t ∷ ts) (v ∷ vs) =
    encode_key_cell (column_of s t) v >>= (λ a. encode_cells s ts vs >>= (λ b. some (a ++ b)))

unfoldable pub decode_cells : Schema → List ℕ → Bytes → Option (List KeyValue × Bytes)
decode_cells s [] b = some ([], b)
decode_cells s (t ∷ ts) b =
    decode_cell (column_of s t) b
    >>= (λ (v, rest). decode_cells s ts rest >>= (λ (vs, left). some (cell v ∷ vs, left)))

-- A row id is an array of 16 bytes.
abbrev pub encode_row_id : List KeyValue → Option Bytes
encode_row_id (row_id x ∷ []) = some x
encode_row_id _ = none

abbrev pub all_read : List KeyValue × Bytes → Option (List KeyValue)
all_read (vs, []) = some vs
all_read (vs, (b ∷ bs)) = none

module _ (max_key : ℕ) where
  abbrev pub bounded_key : Bytes → Option Bytes
  bounded_key b = if ltb max_key (length b) then none else some b

  unfoldable pub encode_key : Schema → List KeyValue → Option Bytes
  encode_key s key =
      if not (keyed s) then encode_row_id key else encode_cells s s.primary_key key >>= bounded_key

unfoldable pub decode_key : Schema → Bytes → Option (List KeyValue)
decode_key s b =
    if not (keyed s)
    then (if nat_beq (length b) 16 then some (row_id b ∷ []) else none)
    else decode_cells s s.primary_key b >>= all_read
