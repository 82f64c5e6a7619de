-- ===== src/Store.antt =====
-- internal/store: the SQLite tables and the statements that the hub runs on them.
--
-- A table is the list of its rows in the order of their rowids. The SQL of the source is
-- translated to list operations; the engine that runs it is a parameter, the function `io`, which
-- says of the n-th call that an operation makes (BEGIN, a statement, COMMIT) whether it succeeds.
pub mod Schema
pub mod Query
pub mod Events
pub mod Crashes
pub mod Paging
pub mod Sorting
pub mod Sessions
