-- ===== src/Storage.antt =====
-- src/storage and include/tiny_sql/storage: values, tables, databases.
pub mod Value
pub mod Compare
pub mod Table
pub mod Catalogue
mod Tests
