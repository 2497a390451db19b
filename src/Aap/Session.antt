-- ===== src/Aap/Session.antt =====
-- The initialization of one session in daemon/src/main.c: `handle_aap_initialization_packet`, the
-- timer that writes the request for notifications once more, and what cancels it. The result of
-- each write to the socket is an input. Of the other calls of the handler, which are made on a
-- session that has requested notifications, the model has their order and not what they do.
use earport_handoff.Base.{
  ℕ, ◌+◌, Bool, true, false, not, ◌&&◌, ◌||◌, Option, List, [], ◌∷◌, bytes_equal, if◌then◌else◌,
}
use earport_handoff.Base.Text.{Bytes}
use earport_handoff.Aap.{
  AapInitAction, nothing, send_features, request_notifications, AapInitState,
  aap_handshake_ack_prefix, aap_features_ack_prefix, packet_has_prefix, aap_init_state_reset,
  aap_init_next_action, aap_init_mark_action_sent, aap_pkt_set_features,
  aap_pkt_request_notifications,
}

-- `notification_retry_timeout_id > 0` is whether the timer runs
pub record Session : Type 0 where
  pub aap_init : AapInitState
  pub notification_retry : Bool
  pub notifications_healthy : Bool

-- a packet to the socket with the result of the write, and the other calls
pub data InitCall : Type 0 where
  send : Bytes → Bool → InitCall
  start_ear_detection_poll schedule_saved_settings maybe_reclaim_after_removal_reconnect : InitCall

unfoldable pub reset_aap_initialization : Session → Session
unfolding aap_init_state_reset
reset_aap_initialization session = record {
  aap_init = aap_init_state_reset session.aap_init;
  notification_retry = false;
  notifications_healthy = false;
}

unfoldable pub mark_notifications_healthy : Session → Session
mark_notifications_healthy session =
    if session.notifications_healthy
    then session
    else record session { notifications_healthy = true; notification_retry = false }

-- when the timer has run out
unfoldable pub retry_notifications_timeout_cb : Session → Bool → Bool → Session × List InitCall
retry_notifications_timeout_cb session connected write_succeeds = (
  record session { notification_retry = false },
  if session.notifications_healthy || not connected
      then []
      else send aap_pkt_request_notifications write_succeeds ∷ [],
)

-- the cases of the action; the last is the result
unfoldable pub perform : Session → AapInitAction → Bool → Session × List InitCall × Bool
unfolding aap_init_mark_action_sent
perform session nothing write_succeeds = (session, [], false)
perform session send_features write_succeeds = (
  if write_succeeds
      then record session { aap_init = aap_init_mark_action_sent session.aap_init send_features }
      else session,
  send aap_pkt_set_features write_succeeds ∷ [],
  true,
)
perform session request_notifications write_succeeds = (
  if write_succeeds
      then record session {
        aap_init = aap_init_mark_action_sent session.aap_init request_notifications;
        notification_retry = true;
      }
      else session,
  send aap_pkt_request_notifications write_succeeds
      ∷ (if write_succeeds
          then start_ear_detection_poll ∷ schedule_saved_settings
            ∷ maybe_reclaim_after_removal_reconnect ∷ []
          else []),
  true,
)

unfoldable pub handle_aap_initialization_packet :
    Session → Option Bytes → Bool → Session × List InitCall × Bool
unfolding perform aap_init_next_action
handle_aap_initialization_packet session packet write_succeeds =
    perform session (aap_init_next_action session.aap_init packet) write_succeeds

-- a packet arrives, the timer runs out, if it runs, or a battery or wear notification is seen
pub data SessionEvent : Type 0 where
  arrives : Option Bytes → Bool → SessionEvent
  retry_timeout : Bool → Bool → SessionEvent
  notified : SessionEvent

unfoldable pub session_step : Session → SessionEvent → Session × List InitCall
unfolding handle_aap_initialization_packet retry_notifications_timeout_cb mark_notifications_healthy
session_step session (arrives packet write_succeeds) =
    let (next, calls, handled) = handle_aap_initialization_packet session packet write_succeeds in
    (next, calls)
session_step session (retry_timeout connected write_succeeds) =
    if session.notification_retry
    then retry_notifications_timeout_cb session connected write_succeeds
    else (session, [])
session_step session notified = (mark_notifications_healthy session, [])

-- how often the calls send the packet with success
abbrev pub sends : Bytes → List InitCall → ℕ
sends packet [] = 0
sends packet (send other true ∷ calls) =
    (if bytes_equal other packet then 1 else 0) + sends packet calls
sends packet (call ∷ calls) = sends packet calls

abbrev pub same_bool : Bool → Bool → Bool
same_bool true b = b
same_bool false b = not b

abbrev pub is_arrival : SessionEvent → Bool
is_arrival (arrives packet write_succeeds) = true
is_arrival (retry_timeout connected write_succeeds) = false
is_arrival notified = false

-- the same over a session, in the events that are arrivals of packets, or in those that are not
abbrev pub session_sends : Bool → Bytes → Session → List SessionEvent → ℕ
session_sends arrival packet session [] = 0
session_sends arrival packet session (e ∷ es) =
    (if same_bool (is_arrival e) arrival then sends packet (session_step session e).1 else 0)
    + session_sends arrival packet (session_step session e).0 es

-- The packet acknowledges the handshake; it acknowledges the features and not the handshake.
abbrev pub acknowledges : AapInitAction → Option Bytes → Bool
acknowledges send_features packet = packet_has_prefix packet aap_handshake_ack_prefix
acknowledges request_notifications packet =
    not (packet_has_prefix packet aap_handshake_ack_prefix)
    && packet_has_prefix packet aap_features_ack_prefix
acknowledges nothing packet = false

-- The event acknowledges the step before the action, and a write succeeds then.
abbrev pub succeeds : AapInitAction → SessionEvent → Bool
succeeds action (arrives packet write_succeeds) = acknowledges action packet && write_succeeds
succeeds action (retry_timeout connected write_succeeds) = false
succeeds action notified = false

abbrev pub some_succeeds : AapInitAction → List SessionEvent → Bool
some_succeeds action [] = false
some_succeeds action (e ∷ es) = succeeds action e || some_succeeds action es
