-- ===== src/Table/Catalog.antt =====
-- model/table/table.go: the catalog record, `EncodeCatalog` and `DecodeCatalog`. A record that does not decode is none.
use snapshot_engine.Shared.{
  ℕ, zero, suc, Bool, true, false, not, ◌⊎◌, inl, inr, Option, none, some, List, [], ◌∷◌, ◌++◌, ltb,
  nat_beq, if◌then◌else◌, length, take, drop, Bytes, codes, ◌==◌, bytes_comparable,
}
use snapshot_engine.Wire.{Wire}
use snapshot_engine.Table.Schema.{
  Column, Index, Schema, Fault, validate, max_columns, max_indexes, max_name_len,
}

-- A read, and what is done with what it read.
infixl 5 ◌>>=◌
abbrev pub ◌>>=◌ {ℓ κ} : {A : Type ℓ} {B : Type κ} → Option A → (A → Option B) → Option B
none >>= f = none
some a >>= f = f a

abbrev pub catalog_magic : Bytes
catalog_magic = codes "VDTC"

abbrev pub format : ℕ
format = 1

-- r.Done, and a schema that validates.
unfoldable pub accept : Schema → Bytes → Option Schema
accept s [] = elim (validate s) [ some e ↦ none | none ↦ some s ]
accept s (b ∷ rest) = none

module _ (w : Wire) where
  abbrev nullable_byte : Bool → ℕ
  nullable_byte b = if b then 1 else 0

  unfoldable pub write_column : Column → Bytes
  write_column c =
      w.u16 c.tag
      ++ (w.len_bytes c.name
          ++ (w.u8 c.kind ++ (w.u8 (nullable_byte c.nullable) ++ w.u32 c.max_len)))

  unfoldable pub write_columns : List Column → Bytes
  write_columns [] = []
  write_columns (c ∷ cs) = write_column c ++ write_columns cs

  unfoldable pub write_tags : List ℕ → Bytes
  write_tags [] = []
  write_tags (t ∷ ts) = w.u16 t ++ write_tags ts

  unfoldable pub write_indexes : List Index → Bytes
  write_indexes [] = []
  write_indexes (ix ∷ ixs) =
      w.u16 ix.tag
      ++ (w.uvarint (length ix.columns) ++ (write_tags ix.columns ++ write_indexes ixs))

  unfoldable pub write_catalog : Schema → Bytes
  write_catalog s =
      catalog_magic
      ++ (w.u16 format
          ++ (w.uvarint (length s.columns)
              ++ (write_columns s.columns
                  ++ (w.uvarint (length s.primary_key)
                      ++ (write_tags s.primary_key
                          ++ (w.uvarint (length s.indexes) ++ write_indexes s.indexes))))))

  unfoldable pub encode_catalog : Schema → Fault ⊎ Bytes
  encode_catalog s = elim (validate s) [ some e ↦ inl e | none ↦ inr (write_catalog s) ]

  -- A count no larger than the limit.
  unfoldable pub bounded : ℕ → Bytes → Option (ℕ × Bytes)
  bounded limit s = w.read_uvarint s >>= (λ (n, t). if ltb limit n then none else some (n, t))

  unfoldable pub read_nullable : Bytes → Option (Bool × Bytes)
  read_nullable s = w.read_u8 s >>= (λ (n, t).
      if nat_beq n 1 then some (true, t) else if nat_beq n 0 then some (false, t) else none)

  unfoldable pub read_column : Bytes → Option (Column × Bytes)
  read_column s = w.read_u16 s >>= (λ (tag, s1). w.read_len_bytes max_name_len s1 >>= (λ (name, s2).
      w.read_u8 s2 >>= (λ (kind, s3). read_nullable s3 >>= (λ (nullable, s4).
        w.read_u32 s4 >>= (λ (max_len, s5). some (
          record { tag = tag; name = name; kind = kind; nullable = nullable; max_len = max_len },
          s5,
        ))))))

  unfoldable pub read_columns : ℕ → Bytes → Option (List Column × Bytes)
  read_columns zero s = some ([], s)
  read_columns (suc n) s =
      read_column s >>= (λ (c, t). read_columns n t >>= (λ (cs, rest). some (c ∷ cs, rest)))

  unfoldable pub read_tags : ℕ → Bytes → Option (List ℕ × Bytes)
  read_tags zero s = some ([], s)
  read_tags (suc n) s =
      w.read_u16 s >>= (λ (x, t). read_tags n t >>= (λ (ts, rest). some (x ∷ ts, rest)))

  unfoldable pub read_index : Bytes → Option (Index × Bytes)
  read_index s = w.read_u16 s >>= (λ (tag, s1). bounded max_columns s1 >>= (λ (m, s2).
      read_tags m s2 >>= (λ (ts, s3). some (record { tag = tag; columns = ts }, s3))))

  unfoldable pub read_indexes : ℕ → Bytes → Option (List Index × Bytes)
  read_indexes zero s = some ([], s)
  read_indexes (suc n) s =
      read_index s >>= (λ (ix, t). read_indexes n t >>= (λ (ixs, rest). some (ix ∷ ixs, rest)))

  unfoldable pub read_schema : Bytes → Option (Schema × Bytes)
  read_schema s = bounded max_columns s >>= (λ (n, s1). read_columns n s1 >>= (λ (cs, s2).
      bounded max_columns s2 >>= (λ (k, s3). read_tags k s3 >>= (λ (key, s4).
        bounded max_indexes s4 >>= (λ (m, s5). read_indexes m s5 >>= (λ (ixs, s6).
          some (record { columns = cs; primary_key = key; indexes = ixs }, s6)))))))

  -- What follows the format version.
  abbrev pub versioned : ℕ × Bytes → Option Schema
  versioned (v, t) =
      if not (nat_beq v format)
      then none
      else read_schema t >>= (λ (schema, rest). accept schema rest)

  unfoldable pub decode_catalog : Bytes → Option Schema
  decode_catalog s =
      if not (take 4 s == catalog_magic) then none else w.read_u16 (drop 4 s) >>= versioned
