-- ===== src/Invites.antt =====
-- service/invites.py: links that grant access to whoever presents their token
pub mod Create
pub mod Resolve
pub mod Liveness
pub mod Accept
pub mod Acceptance
pub mod Revoke
pub mod Listing
