-- ===== src/Lmb/Add.antt =====
-- What `lmb_add_region` does to a table, in the parts of the source.
pub mod Insert
pub mod Grow
pub mod Merge
pub mod Scan
pub mod Result
pub mod Defects
