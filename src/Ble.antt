-- ===== src/Ble.antt =====
-- daemon/src/ble_autoconnect.c and ble_autoconnect.h: the wear advertisements of AirPods that are
-- not connected, and when they make the daemon connect. State objects are passed by value: their
-- callers never pass NULL.
mod Advert
mod Observe
unfoldable pub use Advert.*
unfoldable pub use Observe.*
pub mod Parsing
pub mod First
pub mod Worn
pub mod Firing
pub mod Spacing
pub mod Confirming
pub mod Suppressing
