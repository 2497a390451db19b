-- ===== src/Lib.antt =====
-- EarPort handoff: the daemon that connects AirPods to a Linux desktop, pauses media when they are
-- taken off, and hands them over between Linux and Apple hosts.
--
-- The daemon reads packets from the AirPods over L2CAP (aap_protocol), keeps what they report
-- (airpods_state), watches BLE advertisements for AirPods that are put on (ble_autoconnect), asks
-- BlueZ to connect and disconnect them (bluez_monitor, by the rules of connection_policy), pauses
-- and resumes players (media_control, by wear_policy), and tracks whether another host has taken
-- the AirPods (handoff_policy). main.c joins the parts by callbacks on one main loop, so each
-- call of a policy runs to its end before the next. A history of the program is a list of calls.
--
-- Which file models which part:
--
--   Wear        daemon/src/wear_policy.c, wear_policy.h. Wear/Gate runs the policy over events as
--               daemon/src/media_control.c feeds it while the link is active.
--   Handoff     daemon/src/handoff_policy.c, handoff_policy.h
--   Connection  daemon/src/connection_policy.c, connection_policy.h. Connection/Phases is an
--               abstract removal cycle, the specification of the lifecycle.
--   Monitor     daemon/src/bluez_monitor.c, in part: one removal disconnect and its retries; in Rewear
--               the Connect calls of one automatic connection and their retries; in Cache the
--               cached devices and the search for one; in Tables
--               and Advertisements what an advertisement leads to; in Sightings the record of its signal
--               strength before; and in Targets the choice of
--               the device that a worn advertisement connects
--   State       daemon/src/airpods_state.c, airpods_state.h: Types, Ops (the operations that
--               change the state) and Names (the tables)
--   Ble         daemon/src/ble_autoconnect.c, ble_autoconnect.h: Advert (the parser) and Observe
--               (the edge detector and the suppression)
--   Aap         daemon/src/aap_protocol.c, aap_protocol.h: Init (the initialization of a session),
--               Fields, Metadata and Packet (the parsers), Build (the commands); and the handler
--               of initialization packets of daemon/src/main.c, with the timer that writes the
--               request for notifications once more, in Aap/Session
--   Tracker     daemon/src/media_playback_tracker.c, media_playback_tracker.h
--   Media       daemon/src/media_control.c: State, Calls (pauses, plays and their answers), Handlers
--               (signals and public operations) and Events (one step of either)
--   Config      daemon/src/config.c, config.h: Files (the settings and the migration) and Profiles;
--               Config/KeyFile is what it uses of GLib's key files and UTF-8 validation, with the
--               documented laws as hypotheses
--   Route       daemon/src/audio_route.c, in part: Text (the functions on text that it calls), Sinks
--               (the sink of the AirPods), Restore (the sink to restore) and Inputs (the default and
--               the configured sink, and the inputs of a sink)
--   HashTable   what the daemon uses of GLib's hash table, with the documented laws as hypotheses
--   Base        shared names, lists and reads of buffers, integers, C strings, histories of flags
--   Tests       the models and theorems at concrete inputs
--
-- Definitions keep the names of the C code in lower case. A struct is a record, and a function on
-- a pointer to it takes the record and returns the new one, with the C result beside it; these
-- pointers are never NULL in the daemon. A `char *` is an option of bytes, where none is NULL. A
-- buffer and its length are one list, whose bytes are below 256. In the parsers every read of the
-- buffer is an option: none is a read past the end, or fuel that has run out.
--
-- Bounds and fuel. The parser of manufacturer data has one round more than the buffer has bytes,
-- and every message takes at least two bytes. The scan of a metadata string has one round more
-- than the bytes that are left, and takes one byte a round. The search for the marker and the loop
-- over the batteries count their rounds as the code does. Retry delays are shifted within 32 bits,
-- and the product identifier is cut to 16 bits. Times are integers without a bound; the code takes
-- differences of ordered times of the monotonic clock, which do not overflow 64 bits.
--
-- Not modelled: memory management; the mutex of the state, which each operation holds from its
-- first line to its last; logging; sockets and D-Bus; the rest of bluez_monitor.c and main.c;
-- bluetooth.c and dbus_service.c; the route changes of audio_route.c; the first query of players in
-- media_control.c; and the GNOME Shell extension. BlueZ and the AirPods decide the outcomes of calls and writes, and these are
-- inputs of the models.
pub mod Base
pub mod HashTable
pub mod Wear
pub mod Handoff
pub mod Connection
pub mod State
pub mod Ble
pub mod Aap
pub mod Monitor
pub mod Tracker
pub mod Media
pub mod Config
pub mod Route
mod Tests
