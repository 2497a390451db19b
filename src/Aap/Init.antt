-- ===== src/Aap/Init.antt =====
-- The initialization of a session: which packet the acknowledgements ask for.
use earport_handoff.Base.{Bool, true, false, Option, none, some, [], ◌∷◌, has_prefix, if◌then◌else◌}
use earport_handoff.Base.Text.{Bytes}
use earport_handoff.Aap.Types.{
  AapInitAction, nothing, send_features, request_notifications, AapInitState,
}

abbrev pub aap_handshake_ack_prefix : Bytes
aap_handshake_ack_prefix = 0x01 ∷ 0x00 ∷ 0x04 ∷ 0x00 ∷ []

abbrev pub aap_features_ack_prefix : Bytes
aap_features_ack_prefix = 0x04 ∷ 0x00 ∷ 0x04 ∷ 0x00 ∷ 0x2b ∷ 0x00 ∷ []

unfoldable pub packet_has_prefix : Option Bytes → Bytes → Bool
packet_has_prefix none prefix = false
packet_has_prefix (some buffer) prefix = has_prefix buffer prefix

unfoldable pub aap_init_state_reset : AapInitState → AapInitState
aap_init_state_reset state = record state { features_sent = false; notifications_requested = false }

unfoldable pub aap_init_next_action : AapInitState → Option Bytes → AapInitAction
aap_init_next_action state buffer =
    if packet_has_prefix buffer aap_handshake_ack_prefix
    then (if state.features_sent then nothing else send_features)
    else if packet_has_prefix buffer aap_features_ack_prefix
    then (if state.notifications_requested then nothing else request_notifications)
    else nothing

unfoldable pub aap_init_mark_action_sent : AapInitState → AapInitAction → AapInitState
aap_init_mark_action_sent state send_features = record state { features_sent = true }
aap_init_mark_action_sent state request_notifications = record state {
  notifications_requested = true;
}
aap_init_mark_action_sent state nothing = state
