-- ===== src/Config.antt =====
-- daemon/src/config.c: the settings of the daemon and the profiles of devices, in two key files. A
-- file is missing, unreadable, or holds a key file; the outcomes of calls of the file system are
-- inputs.
pub mod KeyFile
mod Files
mod Profiles
pub mod Names
pub mod Kept
pub mod RoundTrip
pub mod Others
pub mod Ranges
unfoldable pub use Files.*
unfoldable pub use Profiles.*
