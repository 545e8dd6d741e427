-- ===== src/Pg/Links.antt =====
-- internal/store/pg/models: the relation between transactions and users, in memory and in the table
-- `user_transactions`. The methods of transactions.go and those of users.go are the same but for
-- names, which are here in a `Link`: the row of the method, `o`, is the local row, and the rows it
-- is related to are the foreign ones.
pub mod Graph
pub mod Slices
pub mod Related
pub mod Loading
pub mod Tables
mod Tests
