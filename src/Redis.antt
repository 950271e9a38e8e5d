-- ===== src/Redis.antt =====
-- Redis as the backend uses it: the client's commands, and what a server does with them.
mod Commands
mod Server
pub use Commands.*
unfoldable pub use Server.*
