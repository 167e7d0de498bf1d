-- ===== src/Lib.antt =====
-- Verification library for the MariaDB storage engine for ScyllaDB.
--
-- The engine turns the server's handler calls into CQL statements, sends them over one connection
-- to a ScyllaDB cluster, and turns the rows that come back into record buffers. Its parts are:
--
--   * `ScyllaTypes` (scylla_types.cc, scylla_types.h): the CQL type of a field, the CQL literal of
--     its value, the storing of a text into it. Types and the files under Types: `Mapping` has
--     `mariadb_to_cql_type`, `is_supported_type` and `can_be_primary_key`; `Literal` has
--     `escape_string` and the hex digits of a blob; `Value` has `get_cql_value`; `Store` has
--     `store_field_value`. `Cql` is CQL's side: the values of its types and a reader of their
--     literals, and `Exact` says which values their literals stand for exactly. `Quoting`,
--     `ReadBack`, `Moments`, `Typing`, `Timestamps`, `Zones`, `Before1970` and `Years` hold proofs.
--   * `ScyllaQueryBuilder` (scylla_query.cc, scylla_query.h): the statements. Query/Table is what
--     it uses of a `TABLE`, Query/Clauses the private builders and `build_where_from_key`,
--     Query/Statements the public builders. Query/Reader is CQL's side: what it reads in an INSERT,
--     an UPDATE, a DELETE and a SELECT. `Shape`, `Texts`, `KeyLookup` and `KeyText` hold proofs on
--     the texts; `Scanning`, `Listing`, `FieldTerm`, `EquationRead`, `Columns`, `InsertRead`,
--     `UpdateRead`, `SelectRead` and `LookupRead` on what is read in them.
--   * `ScyllaConnection` (scylla_connection.cc, scylla_connection.h): the session with the cluster.
--     Connection/Session has its methods, Connection/Values the text of each value of a result.
--     `Resources`, `Ledger`, `Journal`, `Numbers`, `DecimalText`, `TimeText` and `DateText` hold
--     proofs.
--   * `ha_scylla` (ha_scylla.cc, ha_scylla.h): the handler. Handler/State has its fields,
--     Handler/Comment `parse_table_comment`, Handler/Cql `connect_to_scylla` and `execute_cql`,
--     Handler/Tables the calls on tables, Handler/Record `store_result_to_record`, Handler/Rows
--     the calls that write rows, Handler/Scan the calls that read them, Handler/Info the flags,
--     the statistics and the locks, Handler/Plugin the system variables, the functions and the
--     declaration of the plugin. Handler/Calls has the calls as one type `Call`, and the step
--     relation `Step` with `Reach` over it: a call that returns, the server that writes a record
--     buffer, or the cluster and other handlers that go on. Handler/Tape is what a cursor
--     promises: a tape of the rows that were read and those that were not. Handler/Script has the
--     statements that each call is to send; `Dialogue`, `Sending` and `Sent` compare them with
--     the driver's journal. `Storing`, `Keeping`, `Lifetime` and `Fields` are about what the
--     calls keep, `Reaching`, `Answering` and `Outage` about a cluster that refuses connections,
--     `CopyTime`, `Carrying`, `Copy`, `Columns`, `WriteRead` and `Inserting` about a row that is
--     written and read;
--     `Refining`, `Cursor`, `Sequence`, `FullScan`, `Lookup`, `Interference`, `Reconnect`,
--     `Shifting`, `Opening`, `Dropping`, `Parsing`, `Settings` and `Readback` hold the other proofs.
--
-- A handler calls the query builder for the text of a statement, which calls `get_cql_value` for
-- each value; it sends the text with `execute_cql` and keeps the rows of the answer in
-- `result_set`; the scan calls store them, one at a time, with `store_field_value`. A call is a
-- function from a `State` (the handler, its open table, the memory under the record buffers, and
-- the world of the driver) to its return code and the state after it. The builders move the
-- table's fields between record buffers, so the field list is part of what they return. An
-- exception that leaves a call is `throw` of the type `Result` of Numerals. An exception ends the
-- call, and the state that it leaves behind is not modelled. The methods of a connection hold its
-- mutex from their first statement to their last, so each is one step.
--
-- Texts are lists of byte codes and addresses are integers. A number of w bits wraps around by
-- `% 2 ^ w`, or by `to_word` and `signed`. The digits of a number are made by recursion on fuel:
-- `n + 1` steps are enough for `n`, since each divides by ten. All other loops are structural
-- recursion; `read_to_end`, which stands for a caller of a scan, has fuel for one call for each row
-- and one for the end.
--
-- What is not code of the repository is a parameter: the server's `Field` classes over memory,
-- floating point numbers and `mktime` (Server), and the driver with the cluster
-- (Connection/Driver). Their laws are the records `IsLawful`, `IsLedger` (the objects that the
-- driver holds) and `IsJournal` (the statements that it sent); Server/Cells and Tests are a small
-- server and a small driver that satisfy them. `std::to_string`, `std::stoll`, `sscanf` and
-- `gmtime` are written out in Numerals, Types/Store and Calendar. Prelude and the files under it
-- hold the shared names and lemmas.
--
-- Not modelled: log lines and error messages; the column bitmaps that guard assertions of the
-- server; texts with a zero byte in statements, which the driver cuts there; the server's bounds
-- on its variables; shifts of a key part map by its width or more. CQL's readers know names
-- without quotes, one blank where the engine writes one, and the literals of the types but
-- floating point numbers and decimals. A word of flags is the list of the flags that are set in
-- it.
pub mod Prelude
pub mod Numerals
pub mod Calendar
pub mod Server
pub mod Types
pub mod Query
pub mod Connection
pub mod Handler
pub mod Tests
