-- ===== src/Store.antt =====
-- internal/db: the tables of the store, as lists of rows.
pub mod Rows
pub mod Providers
pub mod Ids
