-- ===== src/Grants.antt =====
-- service/grants.py: who may see and edit a document
pub mod Upsert
pub mod Target
pub mod Share
pub mod Revoke
pub mod Listing
