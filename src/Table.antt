-- ===== src/Table.antt =====
-- model/table/: `Schema` has schemas and what makes one valid, `Catalog` the record that a schema is kept as, `Ordered`,
-- `Numeric` and `Cell` what a value in a column is kept as, `Keys` the keys of rows, `Alter` the
-- change of a schema, `SchemaMerge` the merge of two.
pub mod Schema
pub mod Catalog
pub mod Validity
pub mod Records
pub mod Ordered
pub mod Numeric
pub mod Cell
pub mod Pieces
pub mod Numerals
pub mod CellRoundTrip
pub mod Widths
pub mod Precedes
pub mod Lexical
pub mod CellOrder
pub mod Keys
pub mod KeyOrder
pub mod Alter
pub mod Altered
pub mod SchemaMerge
pub mod Merged
mod MergeSamples
mod Samples
mod CellSamples
