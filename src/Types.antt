-- ===== src/Types.antt =====
-- scylla_types.cc and scylla_types.h: the CQL type of a field, the CQL literal of its value, and
-- the storing of a text that came back from the cluster.
pub mod Mapping
pub mod Literal
pub mod Value
pub mod Store
pub mod Quoting
pub mod ReadBack
pub mod Timestamps
pub mod Cql
pub mod Moments
pub mod Typing
pub mod Exact
pub mod Zones
pub mod Before1970
pub mod Years
