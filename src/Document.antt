-- ===== src/Document.antt =====
-- model/document/: records as canonical JSON. `Outcome` has the parser's state and results, `Text` what it uses of
-- utf8 and utf16, `Quoted` strings, `Decimal` numbers, `Json` the parser and the printer, `Record` the stored frame.
-- `Runes` to `Utf8` are on each kind of value, written and read back; `RoundTrip` puts them together.
pub mod Outcome
pub mod Text
pub mod Quoted
pub mod Decimal
pub mod Json
pub mod Record
pub mod Runes
pub mod Strings
pub mod Validity
pub mod Written
pub mod Scans
pub mod Spelling
pub mod Numbers
pub mod Kinds
pub mod Canonical
pub mod Fronts
pub mod Values
pub mod Rounds
pub mod Utf8
pub mod RoundTrip
mod Samples
