-- ===== src/Docs.antt =====
-- service/docs.py: the operations on documents. Each one asks check_permission and then acts.
pub mod Content
pub mod Publish
pub mod Listing
pub mod Read
pub mod Update
pub mod Delete
pub mod Visibility
pub mod Fork
pub mod Revisions
