-- ===== src/Webmail.antt =====
-- internal/webmail: the web interface's own state and text handling.
pub mod Access
pub mod Account
pub mod Admin
pub mod Compose
pub mod Mail
pub mod Sessions
