-- ===== src/Route.antt =====
-- daemon/src/audio_route.c, in part: how it reads the lists of sinks and inputs that pactl prints.
-- Which bytes GLib takes for white space is a parameter.
mod Text
mod Sinks
mod Restore
mod Inputs
unfoldable pub use Text.*
unfoldable pub use Sinks.*
unfoldable pub use Restore.*
unfoldable pub use Inputs.*
pub mod Blocks
pub mod Safe
pub mod Restored
pub mod Listed
