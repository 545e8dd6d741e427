-- ===== src/Pg.antt =====
-- internal/store/pg: the store over PostgreSQL and its setup.
pub mod Overlap
pub mod Paths
pub mod Setup
pub mod Upsert
pub mod Hooks
pub mod Rows
pub mod Database
pub mod Relations
pub mod Links
pub mod Store
