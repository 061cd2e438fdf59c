-- ===== src/Table/Records.antt =====
-- model/table/table.go: `DecodeCatalog` reads back what `EncodeCatalog` writes.
use snapshot_engine.Shared.{
  ℕ, ◌^◌, ◌≤◌, ◌<◌, ◌≡◌, refl, ap, sym, ◌∙◌, Bool, true, false, inl, inr, Option, none, some, List,
  [], ◌∷◌, ◌++◌, ltb, nat_beq, if◌then◌else◌, length, take, drop, Bytes, arith, Option-cases,
  bytes_comparable, ◌==◌, Bool-cases,
}
use mathlib.Core.List.{append_assoc, append-nil}
use snapshot_engine.Wire.{Wire, Laws}
use snapshot_engine.Table.Schema.{
  Column, Index, Schema, validate, max_columns, max_indexes, max_name_len,
}
use snapshot_engine.Table.Catalog.{
  ◌>>=◌, catalog_magic, format, write_column, write_columns, write_tags, write_indexes,
  write_catalog, encode_catalog, bounded, read_nullable, read_column, read_columns, read_tags,
  read_index, read_indexes, accept, read_schema, versioned, decode_catalog,
}
use snapshot_engine.Table.Validity.{NamesFit, IndexesFit, Fits, validate-Fits}

-- The sizes of Go's types: a tag is a uint16, a column's type a uint8 and its length a uint32.
abbrev pub TagsSized : List ℕ → Type 0
TagsSized [] = Unit
TagsSized (t ∷ ts) = (t < 2 ^ 16) × TagsSized ts

abbrev pub ColumnsSized : List Column → Type 0
ColumnsSized [] = Unit
ColumnsSized (c ∷ cs) =
    ((c.tag < 2 ^ 16) × (c.kind < 2 ^ 8) × (c.max_len < 2 ^ 32)) × ColumnsSized cs

abbrev pub IndexesSized : List Index → Type 0
IndexesSized [] = Unit
IndexesSized (ix ∷ ixs) = ((ix.tag < 2 ^ 16) × TagsSized ix.columns) × IndexesSized ixs

abbrev pub Sized : Schema → Type 0
Sized s = ColumnsSized s.columns × TagsSized s.primary_key × IndexesSized s.indexes

module _ (w : Wire) (laws : Laws w) where
  read_nullable_lem :
      (b : Bool) (rest : Bytes)
      → read_nullable w (w.u8 (if b then 1 else 0) ++ rest) ≡ some (b, rest)
  unfolding read_nullable
  read_nullable_lem true rest = rw (laws.u8_read 1 rest (omega arith)) refl
  read_nullable_lem false rest = rw (laws.u8_read 0 rest (omega arith)) refl

  read_column-write_column :
      (c : Column) (rest : Bytes)
      → length c.name ≤ max_name_len
      → c.tag < 2 ^ 16
      → c.kind < 2 ^ 8
      → c.max_len < 2 ^ 32
      → read_column w (write_column w c ++ rest) ≡ some (c, rest)
  unfolding read_column write_column
  read_column-write_column c rest n t k l =
      let d : Bytes = w.u32 c.max_len in
      let e : Bytes = w.u8 (if c.nullable then 1 else 0) in
      let f : Bytes = w.u8 c.kind in
      let g : Bytes = w.len_bytes c.name in
      rw (append_assoc (w.u16 c.tag) (g ++ (f ++ (e ++ d))) rest) (
        rw (laws.u16_read c.tag ((g ++ (f ++ (e ++ d))) ++ rest) t) (
          rw (append_assoc g (f ++ (e ++ d)) rest) (
            rw (laws.len_bytes_read max_name_len c.name ((f ++ (e ++ d)) ++ rest) n) (
              rw (append_assoc f (e ++ d) rest) (
                rw (laws.u8_read c.kind ((e ++ d) ++ rest) k) (
                  rw (append_assoc e d rest) (
                    rw (read_nullable_lem c.nullable (d ++ rest))
                      (rw (laws.u32_read c.max_len rest l) refl))))))))

  read_columns-write_columns :
      (cs : List Column) (rest : Bytes)
      → NamesFit cs
      → ColumnsSized cs
      → read_columns w (length cs) (write_columns w cs ++ rest) ≡ some (cs, rest)
  unfolding read_columns write_columns
  read_columns-write_columns [] rest n z = refl
  read_columns-write_columns (c ∷ cs) rest (n, ns) ((t, k, l), z) =
      rw (append_assoc (write_column w c) (write_columns w cs) rest) (
        rw (read_column-write_column c (write_columns w cs ++ rest) n t k l)
          (rw (read_columns-write_columns cs rest ns z) refl))

  read_tags-write_tags :
      (ts : List ℕ) (rest : Bytes)
      → TagsSized ts
      → read_tags w (length ts) (write_tags w ts ++ rest) ≡ some (ts, rest)
  unfolding read_tags write_tags
  read_tags-write_tags [] rest z = refl
  read_tags-write_tags (t ∷ ts) rest (k, z) =
      rw (append_assoc (w.u16 t) (write_tags w ts) rest) (
        rw (laws.u16_read t (write_tags w ts ++ rest) k) (rw (read_tags-write_tags ts rest z) refl))

  bounded_lem :
      (limit n : ℕ) (rest : Bytes)
      → n ≤ limit
      → limit ≤ max_columns
      → bounded w limit (w.uvarint n ++ rest) ≡ some (n, rest)
  unfolding bounded
  bounded_lem limit n rest h k =
      let fits : ltb limit n ≡ false = ground arith in
      rw (laws.uvarint_read n rest (omega arith)) (rw fits refl)

  read_indexes-write_indexes :
      (ixs : List Index) (rest : Bytes)
      → IndexesFit ixs
      → IndexesSized ixs
      → read_indexes w (length ixs) (write_indexes w ixs ++ rest) ≡ some (ixs, rest)
  unfolding read_indexes write_indexes read_index
  read_indexes-write_indexes [] rest f z = refl
  read_indexes-write_indexes (ix ∷ ixs) rest (f, fs) ((t, ts), z) =
      let more : Bytes = write_indexes w ixs in
      let tags : Bytes = write_tags w ix.columns in
      let count : Bytes = w.uvarint (length ix.columns) in
      rw (append_assoc (w.u16 ix.tag) (count ++ (tags ++ more)) rest) (
        rw (laws.u16_read ix.tag ((count ++ (tags ++ more)) ++ rest) t) (
          rw (append_assoc count (tags ++ more) rest) (
            rw
              (bounded_lem max_columns (length ix.columns) ((tags ++ more) ++ rest) f (omega arith))
              (rw (append_assoc tags more rest) (
                rw (read_tags-write_tags ix.columns (more ++ rest) ts)
                  (rw (read_indexes-write_indexes ixs rest fs z) refl))))))

  read_schema_lem :
      (s : Schema)
      → Fits s
      → Sized s
      → read_schema w (
          w.uvarint (length s.columns)
          ++ (write_columns w s.columns
              ++ (w.uvarint (length s.primary_key)
                  ++ (write_tags w s.primary_key
                      ++ (w.uvarint (length s.indexes) ++ write_indexes w s.indexes)))))
        ≡ some (s, [])
  unfolding read_schema
  read_schema_lem s fits (cz, kz, iz) =
      let ixs : Bytes = write_indexes w s.indexes in
      let e : Bytes = w.uvarint (length s.indexes) ++ ixs in
      let d : Bytes = w.uvarint (length s.primary_key) ++ (write_tags w s.primary_key ++ e) in
      let last : read_indexes w (length s.indexes) ixs ≡ some (s.indexes, []) =
        ap (read_indexes w (length s.indexes)) (sym (append-nil ixs))
        ∙ read_indexes-write_indexes s.indexes [] fits.index_columns iz in
      rw
        (bounded_lem max_columns (length s.columns) (write_columns w s.columns ++ d)
          fits.columns_fit (omega arith))
        (rw (read_columns-write_columns s.columns d fits.column_names cz) (
          rw
            (bounded_lem max_columns (length s.primary_key) (write_tags w s.primary_key ++ e)
              fits.key_fits (omega arith))
            (rw (read_tags-write_tags s.primary_key e kz) (
              rw (bounded_lem max_indexes (length s.indexes) ixs fits.count_fits (omega arith))
                (rw last refl)))))

-- A catalog record that is written is read back as the schema it was made of, where the wire reads what it writes and
-- the schema's numbers have the sizes of Go's types.
pub decode_catalog-encode_catalog :
    (w : Wire) (s : Schema) (b : Bytes)
    → Laws w
    → Sized s
    → encode_catalog w s ≡ inr b
    → decode_catalog w b ≡ some s
unfolding encode_catalog decode_catalog write_catalog accept
decode_catalog-encode_catalog w s b laws z h =
    let valid : validate s ≡ none = ground arith in
    let made : b ≡ write_catalog w s = ground (arith, valid, h) in
    rw made (
      rw (laws.u16_read format _ (omega arith))
        (rw (read_schema_lem w laws s (validate-Fits s valid) z) (rw (valid, accept) refl)))

bind-some {ℓ κ} :
    {A : Type ℓ} {B : Type κ} (o : Option A) (f : A → Option B) {b : B}
    → o >>= f ≡ some b
    → (a : A) × (f a ≡ some b)
bind-some none f h = cc
bind-some (some a) f h = (a, h)

accept-validate : (s t : Schema) (rest : Bytes) → accept s rest ≡ some t → validate t ≡ none
unfolding accept
accept-validate s t (b ∷ rest) h = cc
accept-validate s t [] h = elim (Option-cases (validate s)) [
  | inr (e, v) ↦ ground (arith, v, h)
  | inl v ↦ let same : s ≡ t = ground (arith, v, h) in rw (sym same) v
]

-- A record that is read gives a schema that validates, whatever the bytes are.
pub decode_catalog-validate :
    (w : Wire) (b : Bytes) (s : Schema) → decode_catalog w b ≡ some s → validate s ≡ none
unfolding decode_catalog
decode_catalog-validate w b s h = elim (Bool-cases (take 4 b == catalog_magic)) [
  | inr m ↦ ground (arith, m, h)
  | inl m ↦
      let ((v, t), k) = bind-some (w.read_u16 (drop 4 b)) (versioned w) (sym (rw m refl) ∙ h) in
      elim (Bool-cases (nat_beq v format)) [
        | inr e ↦ ground (arith, e, k)
        | inl e ↦
            let ((found, rest), l) =
              bind-some (read_schema w t) (λ (schema, rest). accept schema rest)
                (sym (rw e refl) ∙ k) in
            accept-validate found s rest l
      ]
]
