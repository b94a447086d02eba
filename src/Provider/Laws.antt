-- ===== src/Provider/Laws.antt =====
-- What the callers of internal/provider rely on.
mod Contract
mod Settings
mod Replies
pub use Contract.*
pub use Settings.*
pub use Replies.*
