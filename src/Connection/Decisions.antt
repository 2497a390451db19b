-- ===== src/Connection/Decisions.antt =====
-- What the daemon does at a connection or a disconnection that BlueZ reports.
use earport_handoff.Base.{◌≡◌, ◌↔◌, true, false, arith}
use earport_handoff.Base.Text.{CString}
use earport_handoff.Connection.{
  ignore, connect, current, switch, disconnect_current, address_is_valid, airpods_address_equal,
  connection_policy_device_connected, connection_policy_device_disconnected,
}

-- At a connected device: the event is ignored exactly without an address in it, connects exactly
-- if there is one and no current device, is the current device exactly if the addresses are
-- equal, and switches exactly if both are valid and they differ. At a disconnected device the
-- current one is given up exactly where its connection would have been the current device's.
pub decision_iff :
    (mine event : CString)
    → let d = connection_policy_device_connected mine event in
      ((d ≡ ignore) ↔ (address_is_valid event ≡ false))
      × ((d ≡ connect) ↔ ((address_is_valid event ≡ true) × (address_is_valid mine ≡ false)))
      × ((d ≡ current) ↔ (airpods_address_equal mine event ≡ true))
      × ((d ≡ switch) ↔ (
          (address_is_valid event ≡ true)
          × (address_is_valid mine ≡ true)
          × (airpods_address_equal mine event ≡ false)))
      × ((connection_policy_device_disconnected mine event ≡ disconnect_current) ↔ (d ≡ current))
unfolding connection_policy_device_connected connection_policy_device_disconnected
    airpods_address_equal
decision_iff mine event = ground arith
