-- ===== src/Table/Schema.antt =====
-- model/table/table.go: schemas, and `Validate`. A tag, a type and a length are numbers; a Go map of what was seen is
-- the list of it.
use snapshot_engine.Shared.{
  ℕ, ◌^◌, ◌≡◌, ◌↔◌, Bool, true, not, ◌&&◌, ◌||◌, Option, none, some, List, [], ◌∷◌, ltb, leb,
  nat_beq, if◌then◌else◌, length, any, Bytes, Comparable, ◌==◌, bytes_comparable, nat_comparable,
  nat_beq_iff, arith,
}

abbrev pub max_columns : ℕ
max_columns = 1024

abbrev pub max_name_len : ℕ
max_name_len = 128

abbrev pub max_indexes : ℕ
max_indexes = 64

abbrev pub max_varchar_len : ℕ
max_varchar_len = 2 ^ 20

abbrev pub type_bool : ℕ
type_bool = 1

abbrev pub type_int2 : ℕ
type_int2 = 2

abbrev pub type_int4 : ℕ
type_int4 = 3

abbrev pub type_int8 : ℕ
type_int8 = 4

abbrev pub type_float4 : ℕ
type_float4 = 5

abbrev pub type_float8 : ℕ
type_float8 = 6

abbrev pub type_numeric : ℕ
type_numeric = 7

abbrev pub type_text : ℕ
type_text = 8

abbrev pub type_varchar : ℕ
type_varchar = 9

abbrev pub type_bytea : ℕ
type_bytea = 10

abbrev pub type_date : ℕ
type_date = 11

abbrev pub type_timestamp : ℕ
type_timestamp = 12

abbrev pub type_timestamptz : ℕ
type_timestamptz = 13

abbrev pub type_uuid : ℕ
type_uuid = 14

abbrev pub type_jsonb : ℕ
type_jsonb = 15

abbrev pub type_count : ℕ
type_count = 16

pub record Column : Type 0 where
  pub tag : ℕ
  pub name : Bytes
  pub kind : ℕ
  pub nullable : Bool
  pub max_len : ℕ

pub record Index : Type 0 where
  pub tag : ℕ
  pub columns : List ℕ

pub record Schema : Type 0 where
  pub columns : List Column
  pub primary_key : List ℕ
  pub indexes : List Index

-- Why a schema cannot be a table's.
pub data Fault : Type 0 where
  no_columns too_many_columns tag_zero tag_twice bad_name name_twice unknown_type bad_length
        stray_length :
      Fault
  key_missing key_nullable key_twice : Fault
  too_many_indexes index_tag_zero index_tag_twice index_empty index_missing index_column_twice :
      Fault
  key_changed not_null_added key_retyped : Fault
  not_convertible : ℕ → ℕ → Fault

-- The column of a tag.
unfoldable pub column : List Column → ℕ → Option Column
column [] t = none
column (c ∷ cs) t = let rest = column cs t in if nat_beq c.tag t then some c else rest

abbrev pub has_tag : List ℕ → ℕ → Bool
has_tag tags t = any (λ u. nat_beq u t) tags

abbrev pub has_name : List Bytes → Bytes → Bool
has_name names n = any (λ m. m == n) names

-- One column, after those whose tags and names were seen.
unfoldable pub check_column : List ℕ → List Bytes → Column → Option Fault
check_column tags names c =
    if nat_beq c.tag 0
    then some tag_zero
    else if has_tag tags c.tag
    then some tag_twice
    else if nat_beq (length c.name) 0 || ltb max_name_len (length c.name)
    then some bad_name
    else if has_name names c.name
    then some name_twice
    else if nat_beq c.kind 0 || leb type_count c.kind
    then some unknown_type
    else if nat_beq c.kind type_varchar && (nat_beq c.max_len 0 || ltb max_varchar_len c.max_len)
    then some bad_length
    else if not (nat_beq c.kind type_varchar) && not (nat_beq c.max_len 0)
    then some stray_length
    else none

unfoldable pub check_columns : List ℕ → List Bytes → List Column → Option Fault
check_columns tags names [] = none
check_columns tags names (c ∷ cs) =
    let rest = check_columns (c.tag ∷ tags) (c.name ∷ names) cs in
    elim (check_column tags names c) [ some e ↦ some e | none ↦ rest ]

-- The primary key's columns, after those seen.
unfoldable pub check_key : List Column → List ℕ → List ℕ → Option Fault
check_key cs seen [] = none
check_key cs seen (t ∷ ts) =
    let rest = check_key cs (t ∷ seen) ts in
    elim (column cs t) [
      | none ↦ some key_missing
      | some c ↦
          if c.nullable then some key_nullable else if has_tag seen t then some key_twice else rest
    ]

-- An index's columns, after those seen.
unfoldable pub check_index_columns : List Column → List ℕ → List ℕ → Option Fault
check_index_columns cs seen [] = none
check_index_columns cs seen (t ∷ ts) =
    let rest = check_index_columns cs (t ∷ seen) ts in
    elim (column cs t) [
      | none ↦ some index_missing
      | some c ↦ if has_tag seen t then some index_column_twice else rest
    ]

unfoldable pub check_indexes : List Column → List ℕ → List Index → Option Fault
check_indexes cs seen [] = none
check_indexes cs seen (ix ∷ ixs) =
    let rest = check_indexes cs (ix.tag ∷ seen) ixs in
    if nat_beq ix.tag 0
    then some index_tag_zero
    else if has_tag seen ix.tag
    then some index_tag_twice
    else if nat_beq (length ix.columns) 0
    then some index_empty
    else elim (check_index_columns cs [] ix.columns) [ some e ↦ some e | none ↦ rest ]

unfoldable pub validate : Schema → Option Fault
validate s =
    if nat_beq (length s.columns) 0
    then some no_columns
    else if ltb max_columns (length s.columns)
    then some too_many_columns
    else elim (check_columns [] [] s.columns) [
      | some e ↦ some e
      | none ↦ elim (check_key s.columns [] s.primary_key) [
        | some e ↦ some e
        | none ↦
            if ltb max_indexes (length s.indexes)
            then some too_many_indexes
            else check_indexes s.columns [] s.indexes
      ]
    ]

-- Go's == on columns and indexes' columns.
abbrev bool_eq : Bool → Bool → Bool
bool_eq a b = if a then b else not b

unfoldable pub column_eq : Column → Column → Bool
column_eq a b =
    nat_beq a.tag b.tag
    && (a.name == b.name
        && (nat_beq a.kind b.kind
            && (bool_eq a.nullable b.nullable && nat_beq a.max_len b.max_len)))

pub column_eq_iff : (a b : Column) → (column_eq a b ≡ true) ↔ (a ≡ b)
unfolding column_eq
column_eq_iff a b = ground (
  arith,
  bytes_comparable.eq_iff a.name b.name,
  nat_beq_iff a.tag b.tag,
  nat_beq_iff a.kind b.kind,
  nat_beq_iff a.max_len b.max_len,
)

instance abbrev pub column_comparable : Comparable Column
column_comparable = record { eq = column_eq; eq_iff = column_eq_iff }

pub bool_eq_iff : (a b : Bool) → (bool_eq a b ≡ true) ↔ (a ≡ b)
bool_eq_iff a b = ground arith

instance abbrev pub bool_comparable : Comparable Bool
bool_comparable = record { eq = bool_eq; eq_iff = bool_eq_iff }
