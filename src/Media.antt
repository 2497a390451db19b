-- ===== src/Media.antt =====
-- daemon/src/media_control.c: pausing and resuming media players over MPRIS, for a removal from the
-- ears and for a handoff to another host. A MediaControl is passed by value and is never NULL. GLib's
-- hash tables are parameters. What a handler asks of others, D-Bus calls, callbacks and audio
-- routes, is a list of effects in their order; each reply is a later call of a handler.
mod State
mod Calls
mod Signals
mod Handlers
pub mod Events
pub mod Lists
pub mod Held
pub mod Consistent
pub mod Keeps
pub mod Resume
pub mod Paused
pub mod Started
pub mod Allowed
pub mod Stale
pub use State.*
unfoldable pub use Calls.*
unfoldable pub use Signals.*
unfoldable pub use Handlers.*
