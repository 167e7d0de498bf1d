-- ===== src/Handler.antt =====
-- ha_scylla.cc and ha_scylla.h: the handler that MariaDB calls for a table. Writing to the error log
-- and the diagnostics area is left out; no result depends on it.
pub mod State
pub mod Comment
pub mod Cql
pub mod Tables
pub mod Record
pub mod Rows
pub mod Scan
pub mod Cursor
pub mod Interference
pub mod Reconnect
pub mod Sequence
pub mod FullScan
pub mod Lookup
pub mod Dropping
pub mod Calls
pub mod Parsing
pub mod Storing
pub mod Keeping
pub mod Lifetime
pub mod Fields
pub mod Reaching
pub mod Answering
pub mod Outage
pub mod CopyTime
pub mod Carrying
pub mod Copy
pub mod Columns
pub mod WriteRead
pub mod Inserting
pub mod Shifting
pub mod Opening
pub mod Dialogue
pub mod Sending
pub mod Script
pub mod Sent
pub mod Tape
pub mod Refining
pub mod Info
pub mod Plugin
pub mod Settings
pub mod Readback
