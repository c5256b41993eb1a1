-- ===== src/Tests.antt =====
-- Tests and instances of the theorems, on a small database.
mod Samples
mod Access
mod Docs
mod Sharing
mod Device
mod Presence
mod MagicLink
mod Revoking
mod Mcp
mod Mail
mod Sessions
mod Paging
mod Cache
mod Tokens
mod RateLimit
mod Web
mod Window
mod Middleware
