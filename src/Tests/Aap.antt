-- ===== src/Tests/Aap.antt =====
-- The protocol at concrete packets.
use earport_handoff.Base.{
  ◌≤◌, Option, ◌≡◌, refl, ◌↔◌, true, false, some, List, [], ◌∷◌, ◌++◌, Returns, take,
}
use earport_handoff.Base.Int.{pos, negsuc}
use earport_handoff.Base.Text.{Bytes, codes}
use earport_handoff.State.{unknown, charging, discharging}
use earport_handoff.Aap.{
  ok, incomplete, AapPacketType, AapPayload, AapParsedPacket, AapBatteryData, AapMetadata,
  send_features, request_notifications, aap_init_state_reset, aap_init_next_action,
  aap_init_mark_action_sent, packet_has_prefix, aap_pkt_set_features, aap_pkt_request_notifications,
  aap_parse_packet, aap_parse_battery, aap_parse_metadata, release_marker, set_type, read_battery,
  battery_components, battery_status, battery_level, store_battery, aap_parse_metadata_string,
  scan_string,
}
use earport_handoff.Aap.InBounds.{parse_packet-Returns}
use earport_handoff.Aap.Session.{
  Session, SessionEvent, arrives, retry_timeout, notified, session_step, session_sends,
  some_succeeds, perform, handle_aap_initialization_packet, mark_notifications_healthy,
  retry_notifications_timeout_cb, reset_aap_initialization,
}
use earport_handoff.Aap.Writes.{one_if, session_writes}
use earport_handoff.Aap.Ranges.{AllInRange, parse_battery-AllInRange}
use earport_handoff.Aap.Strings.{parse_metadata_strings}
use earport_handoff.Aap.Release.{Occurs, release_request_iff}

abbrev blank : AapParsedPacket
blank = record { packet_type = AapPacketType.unknown; payload = AapPayload.unwritten }

-- right 99 % and charging, left 100 %, and the case of no known level
abbrev battery_packet : Bytes
battery_packet =
    0x04 ∷ 0x00 ∷ 0x04 ∷ 0x00 ∷ 0x04 ∷ 0x00 ∷ 0x03 ∷ 0x02 ∷ 0x01 ∷ 99 ∷ 0x01 ∷ 0x01 ∷ 0x04 ∷ 0x01
    ∷ 100 ∷ 0x02 ∷ 0x01 ∷ 0x08 ∷ 0x01 ∷ 127 ∷ 0x00 ∷ 0x01 ∷ []

abbrev battery_data : AapBatteryData
battery_data = record {
  left_level = pos 100;
  right_level = pos 99;
  case_level = negsuc 0;
  left_status = discharging;
  right_status = charging;
  case_status = unknown;
}

parse-battery_packet : aap_parse_battery battery_packet ≡ some (ok, some battery_data)
unfolding aap_parse_battery read_battery battery_components battery_status battery_level
    store_battery
parse-battery_packet = refl

parse_packet-Returns_example :
    Returns (aap_parse_packet (some (0x04 ∷ 0x00 ∷ 0x04 ∷ 0x00 ∷ 0x04 ∷ 0x00 ∷ 0x03 ∷ [])) blank)
parse_packet-Returns_example =
    parse_packet-Returns (some (0x04 ∷ 0x00 ∷ 0x04 ∷ 0x00 ∷ 0x04 ∷ 0x00 ∷ 0x03 ∷ [])) blank

parse_battery-AllInRange_example : AllInRange battery_data
parse_battery-AllInRange_example =
    parse_battery-AllInRange battery_packet ok battery_data parse-battery_packet

abbrev front : Bytes
front = 0x04 ∷ 0x00 ∷ 0x04 ∷ 0x00 ∷ 0x1d ∷ 0 ∷ 0 ∷ 0 ∷ 0 ∷ 0 ∷ 0 ∷ 0 ∷ []

parse_metadata_strings_example :
    aap_parse_metadata
      (front ++ (codes "Pods" ++ (0 ∷ (codes "A2699" ++ (0 ∷ (codes "Apple" ++ (0 ∷ [])))))))
    ≡ some (
      ok,
      some (record {
        device_name = take 63 (codes "Pods");
        model_number = take 15 (codes "A2699");
        manufacturer = take 31 (codes "Apple");
      }),
    )
parse_metadata_strings_example =
    parse_metadata_strings front (codes "Pods") (codes "A2699") (codes "Apple") [] refl
      (refl, (refl, (refl, (refl, tt)))) (refl, (refl, (refl, (refl, (refl, tt)))))
      (refl, (refl, (refl, (refl, (refl, tt)))))

-- the packet ends within the name
abbrev cut_metadata : AapMetadata
cut_metadata = record { device_name = codes "Po"; model_number = []; manufacturer = [] }

parse-cut : aap_parse_metadata (front ++ codes "Po") ≡ some (incomplete, some cut_metadata)
unfolding aap_parse_metadata aap_parse_metadata_string scan_string
parse-cut = refl

release_request_iff_example :
    (aap_parse_packet
        (some (0x04 ∷ 0x00 ∷ 0x04 ∷ 0x00 ∷ 0x11 ∷ 0x00 ∷ codes "..SetOwnershipToFalse."))
        blank
      ≡ some (ok, set_type AapPacketType.ownership_release_request blank))
    ↔ Occurs (codes "..SetOwnershipToFalse.") release_marker
release_request_iff_example = release_request_iff 0x00 (codes "..SetOwnershipToFalse.") blank

-- left over from another session
abbrev stale : Session
stale = record {
  aap_init = record { features_sent = true; notifications_requested = true };
  notification_retry = true;
  notifications_healthy = true;
}

abbrev handshake_ack : Option Bytes
handshake_ack = some (0x01 ∷ 0x00 ∷ 0x04 ∷ 0x00 ∷ [])

abbrev features_ack : Option Bytes
features_ack = some (0x04 ∷ 0x00 ∷ 0x04 ∷ 0x00 ∷ 0x2b ∷ 0x00 ∷ 0x01 ∷ [])

-- acknowledgements that come twice, a write that fails, and the timer, which runs out once
abbrev session_events : List SessionEvent
session_events =
    arrives handshake_ack false
    ∷ arrives handshake_ack true
    ∷ arrives handshake_ack true
    ∷ arrives features_ack true
    ∷ arrives features_ack true
    ∷ retry_timeout true true
    ∷ retry_timeout true true
    ∷ notified
    ∷ []

retried :
    session_sends false aap_pkt_request_notifications
      (reset_aap_initialization stale)
      session_events
    ≡ 1
unfolding session_step handle_aap_initialization_packet perform aap_init_next_action
    packet_has_prefix aap_pkt_set_features aap_pkt_request_notifications mark_notifications_healthy
    retry_notifications_timeout_cb reset_aap_initialization aap_init_state_reset
    aap_init_mark_action_sent
retried = refl

session_writes_example :
    let session = reset_aap_initialization stale in
    let requested = one_if (some_succeeds request_notifications session_events) in
    (session_sends true aap_pkt_set_features session session_events
      ≡ one_if (some_succeeds send_features session_events))
    × (session_sends false aap_pkt_set_features session session_events ≡ 0)
    × (session_sends true aap_pkt_request_notifications session session_events ≡ requested)
    × (session_sends false aap_pkt_request_notifications session session_events ≤ requested)
session_writes_example = session_writes stale session_events
