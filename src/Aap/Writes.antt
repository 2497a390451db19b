-- ===== src/Aap/Writes.antt =====
-- How often the packets of the initialization are written in one session.
use earport_handoff.Base.{
  ℕ, refl, ◌+◌, ◌≤◌, ◌≡◌, Bool, true, false, not, ◌&&◌, ◌||◌, List, [], ◌∷◌, arith, if◌then◌else◌,
}
use earport_handoff.Base.Text.{Bytes}
use earport_handoff.Aap.{
  send_features, request_notifications, aap_init_next_action, aap_init_state_reset,
  aap_pkt_set_features, aap_pkt_request_notifications,
}
use earport_handoff.Aap.Session.{
  Session, SessionEvent, arrives, retry_timeout, notified, session_step, sends, session_sends,
  is_arrival, same_bool, succeeds, some_succeeds, perform, handle_aap_initialization_packet,
  mark_notifications_healthy, retry_notifications_timeout_cb, reset_aap_initialization,
}

abbrev pub one_if : Bool → ℕ
one_if b = if b then 1 else 0

abbrev sends_if : Bool → Session → SessionEvent → Bytes → ℕ
sends_if arrival s e packet =
    if same_bool (is_arrival e) arrival then sends packet (session_step s e).1 else 0

step-features :
    (s : Session) (e : SessionEvent)
    → let succeeding = succeeds send_features e in
      ((session_step s e).0.aap_init.features_sent ≡ (s.aap_init.features_sent || succeeding))
      × (sends_if true s e aap_pkt_set_features
          ≡ one_if (not s.aap_init.features_sent && succeeding))
      × (sends_if false s e aap_pkt_set_features ≡ 0)
unfolding session_step handle_aap_initialization_packet perform aap_init_next_action
    aap_pkt_set_features aap_pkt_request_notifications mark_notifications_healthy
    retry_notifications_timeout_cb
step-features s (arrives packet true) = (ground arith, ground arith, ground arith)
step-features s (arrives packet false) = (ground arith, ground arith, ground arith)
step-features s (retry_timeout connected ok) = (ground arith, ground arith, ground arith)
step-features s notified = (ground arith, ground arith, ground arith)

step-requests :
    (s : Session) (e : SessionEvent)
    → let succeeding = succeeds request_notifications e in
      ((session_step s e).0.aap_init.notifications_requested
        ≡ (s.aap_init.notifications_requested || succeeding))
      × (sends_if true s e aap_pkt_request_notifications
          ≡ one_if (not s.aap_init.notifications_requested && succeeding))
unfolding session_step handle_aap_initialization_packet perform aap_init_next_action
    aap_pkt_set_features aap_pkt_request_notifications mark_notifications_healthy
    retry_notifications_timeout_cb
step-requests s (arrives packet true) = (ground arith, ground arith)
step-requests s (arrives packet false) = (ground arith, ground arith)
step-requests s (retry_timeout connected ok) = (ground arith, ground arith)
step-requests s notified = (ground arith, ground arith)

-- a timer runs only in a session that has requested notifications
abbrev IsArmedLate : Session → Type 0
IsArmedLate s = (not s.notification_retry || s.aap_init.notifications_requested) ≡ true

-- how many requests the timer can still write, where a handler's write is to succeed or not
abbrev most : Session → Bool → ℕ
most s succeeding =
    if s.aap_init.notifications_requested then one_if s.notification_retry else one_if succeeding

step-retries :
    (s : Session) (e : SessionEvent) (later : Bool)
    → IsArmedLate s
    → IsArmedLate (session_step s e).0
      × (sends_if false s e aap_pkt_request_notifications + most (session_step s e).0 later
          ≤ most s (succeeds request_notifications e || later))
unfolding session_step handle_aap_initialization_packet perform aap_init_next_action
    aap_pkt_set_features aap_pkt_request_notifications mark_notifications_healthy
    retry_notifications_timeout_cb
step-retries s (arrives packet true) later armed = (ground arith, ground arith)
step-retries s (arrives packet false) later armed = (ground arith, ground arith)
step-retries s (retry_timeout connected true) later armed = (ground arith, ground arith)
step-retries s (retry_timeout connected false) later armed = (ground arith, ground arith)
step-retries s notified later armed = (ground arith, ground arith)

features_once :
    (es : List SessionEvent) (s : Session)
    → (session_sends true aap_pkt_set_features s es
        ≡ (if s.aap_init.features_sent then 0 else one_if (some_succeeds send_features es)))
      × (session_sends false aap_pkt_set_features s es ≡ 0)
features_once [] s = (ground arith, ground arith)
features_once (e ∷ es) s =
    let (sent, here, elsewhere) = step-features s e in
    let (once, never) = features_once es (session_step s e).0 in
    (ground (arith, sent, here, once), omega (arith, elsewhere, never))

requests_once :
    (es : List SessionEvent) (s : Session)
    → session_sends true aap_pkt_request_notifications s es ≡ (
        if s.aap_init.notifications_requested
        then 0
        else one_if (some_succeeds request_notifications es))
requests_once [] s = ground arith
requests_once (e ∷ es) s = ground (arith, step-requests s e, requests_once es (session_step s e).0)

retry_bound :
    (es : List SessionEvent) (s : Session)
    → IsArmedLate s
    → session_sends false aap_pkt_request_notifications s es
      ≤ most s (some_succeeds request_notifications es)
retry_bound [] s armed = ground arith
retry_bound (e ∷ es) s armed =
    let (armed', step) = step-retries s e (some_succeeds request_notifications es) armed in
    omega (arith, step, retry_bound es (session_step s e).0 armed')

-- In a session that begins with a reset, over any packets, notifications and runs of the retry timer:
-- the feature packet is written with success exactly once when packets arrive, if one of them
-- acknowledges the handshake and the write after it succeeds, and else never, however often that is
-- acknowledged; at other events it is not written. The same holds of the request for notifications
-- and the acknowledged features, and at other events it is written with success at most once more,
-- and only in a session where it was written when a packet arrived.
pub session_writes :
    (s : Session) (es : List SessionEvent)
    → let session = reset_aap_initialization s in
      let requested = one_if (some_succeeds request_notifications es) in
      (session_sends true aap_pkt_set_features session es ≡ one_if (some_succeeds send_features es))
      × (session_sends false aap_pkt_set_features session es ≡ 0)
      × (session_sends true aap_pkt_request_notifications session es ≡ requested)
      × (session_sends false aap_pkt_request_notifications session es ≤ requested)
unfolding reset_aap_initialization aap_init_state_reset
session_writes s es =
    let session = reset_aap_initialization s in
    let (once, never) = features_once es session in
    (once, never, requests_once es session, retry_bound es session refl)
