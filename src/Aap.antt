-- ===== src/Aap.antt =====
-- daemon/src/aap_protocol.c and aap_protocol.h: the packets of the Apple accessory protocol. A
-- buffer and its length are a list of bytes, each below 256; NULL is `none`. In a parser `none`
-- stands for a read past the end of the buffer, or for a loop that has run out of fuel.
mod Types
mod Init
mod Fields
mod Metadata
mod Packet
mod Build
pub use Types.*
unfoldable pub use Init.*
unfoldable pub use Fields.*
unfoldable pub use Metadata.*
unfoldable pub use Packet.*
unfoldable pub use Build.*
pub mod InBounds
pub mod Session
pub mod Writes
pub mod Ranges
pub mod Strings
pub mod Release
pub mod Commands
