-- ===== src/Tests.antt =====
-- Concrete values, and the theorems of the other modules at them.
pub mod Chars
pub mod JsonText
pub mod Values
mod Workers
mod Runs
mod Mirrors
mod Stores
mod Outboxes
mod Tokens
mod Services
pub mod Logins
mod Configs
mod Hooks
mod Ciphers
mod Permissions
mod Bulks
mod Callbacks
