-- ===== src/Connection.antt =====
-- scylla_connection.cc and scylla_connection.h: the wrapper of the cpp-rs-driver. `Driver` is the
-- interface to that driver, `Values` the texts of result values, `Session` the methods.
pub mod Driver
pub mod Values
pub mod Session
pub mod Resources
pub mod Ledger
pub mod Numbers
pub mod DecimalText
pub mod TimeText
pub mod DateText
pub mod Journal
