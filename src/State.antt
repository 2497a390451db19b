-- ===== src/State.antt =====
-- daemon/src/airpods_state.c and airpods_state.h: the state that the daemon keeps of the AirPods.
-- Each operation holds the state's mutex from its first line to its last, so it is a function from
-- state to state; the mutex itself is not modelled.
mod Types
mod Ops
mod Names
pub use Types.*
unfoldable pub use Ops.*
unfoldable pub use Names.*
pub mod Valid
pub mod Models
