-- ===== src/Db.antt =====
-- db.py: the tables' CRUD functions. A function that only SELECTs is a function of the tables.
pub mod Documents
pub mod Grants
pub mod Revisions
pub mod Audit
pub mod Listings
pub mod Bookmarks
