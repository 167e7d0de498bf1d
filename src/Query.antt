-- ===== src/Query.antt =====
-- scylla_query.cc and scylla_query.h: the texts of the CQL statements. A builder reads the fields of
-- a row by moving each field to the row's buffer and back, so every builder returns the fields too.
pub mod Table
pub mod Clauses
pub mod Statements
pub mod Shape
pub mod Texts
pub mod Reader
pub mod Scanning
pub mod Listing
pub mod FieldTerm
pub mod InsertRead
pub mod EquationRead
pub mod Columns
pub mod UpdateRead
pub mod SelectRead
pub mod KeyLookup
pub mod KeyText
pub mod LookupRead
