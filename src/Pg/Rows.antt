-- ===== src/Pg/Rows.antt =====
-- internal/store/pg/models: the operations that SQLBoiler generates for the rows of a table. The
-- code of transactions.go and of users.go differs in names, which are here in a `Table`.
pub mod Boiler
pub mod Caches
pub mod Session
pub mod Queries
pub mod Writes
pub mod Deletes
pub mod Tables
pub mod Names
pub mod Dialect
pub mod Where
pub mod Users
mod Tests
