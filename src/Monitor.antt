-- ===== src/Monitor.antt =====
-- daemon/src/bluez_monitor.c: the daemon's side of BlueZ, in part: one removal disconnect, its
-- Disconnect calls to BlueZ and the retries after errors, from `bluez_monitor_disconnect_device`
-- on. BlueZ and the device decide the outcome of each call; the outcomes are the input.
pub mod Disconnect
pub mod Targets
pub mod Tables
pub mod Advertisements
pub mod Attempts
pub mod Steps
pub mod Sightings
pub mod Cooldown
pub mod Connecting
pub mod Suppressed
pub mod Cache
pub mod Cached
pub mod Rewear
pub mod Reconnect
use Prim.Native.String.{String}
use earport_handoff.Base.{
  ℕ, ◌+◌, Bool, true, false, not, ◌||◌, Option, none, some, List, [], ◌∷◌, bytes_equal,
  if◌then◌else◌,
}
use earport_handoff.Base.Text.{CString, codes}
use earport_handoff.Connection.{
  removal_disconnect_retry_should_schedule, removal_disconnect_retry_delay_msec,
}

-- a `GError` of a call: whether it is G_IO_ERROR_CANCELLED, and `g_dbus_error_get_remote_error`
pub record CallError : Type 0 where
  pub cancelled : Bool
  pub remote_error : CString

-- `g_strcmp0(remote_error, name) == 0`
abbrev pub is_named : CString → String → Bool
is_named none name = false
is_named (some remote_error) name = bytes_equal remote_error (codes name)

unfoldable pub error_is_bluez_not_connected : Option CallError → Bool
error_is_bluez_not_connected none = false
error_is_bluez_not_connected (some error) =
    is_named error.remote_error "org.bluez.Error.NotConnected"

-- the local `terminal`
unfoldable pub error_is_terminal : CString → Bool
error_is_terminal remote_error =
    is_named remote_error "org.bluez.Error.NotPaired"
    || is_named remote_error "org.bluez.Error.NotSupported"
    || is_named remote_error "org.bluez.Error.InvalidArguments"
    || is_named remote_error "org.freedesktop.DBus.Error.AccessDenied"
    || is_named remote_error "org.freedesktop.DBus.Error.UnknownMethod"
    || is_named remote_error "org.freedesktop.DBus.Error.UnknownObject"
    || is_named remote_error "org.freedesktop.DBus.Error.ServiceUnknown"

unfoldable pub disconnect_error_is_retryable : Option CallError → Bool
unfolding error_is_terminal
disconnect_error_is_retryable none = false
disconnect_error_is_retryable (some error) =
    if error.cancelled then false else not (error_is_terminal error.remote_error)

-- How a Disconnect call ends: its error, if any; and `disconnect_is_still_required` when the
-- answer arrives, and when the timer of the retry runs out.
pub record Outcome : Type 0 where
  pub error : Option CallError
  pub required : Bool
  pub required_at_retry : Bool

-- `!(error != NULL && !already_disconnected)`
unfoldable pub is_accepted : Option CallError → Bool
unfolding error_is_bluez_not_connected
is_accepted none = true
is_accepted (some error) = error_is_bluez_not_connected (some error)

-- What the request did: the attempt numbers of the Disconnect calls that it sent, the delays of
-- its retries, and the result of `notify_disconnect_finished`, `none` where BlueZ has not answered
-- yet. The monitor is not disposed of, and there is a callback.
pub record Run : Type 0 where
  pub attempts : List ℕ
  pub delays : List ℕ
  pub finished : Option Bool

-- a reply is due
abbrev pub waiting : ℕ → Run
waiting attempt = record { attempts = attempt ∷ []; delays = []; finished = none }

-- `notify_disconnect_finished`
abbrev pub finish : ℕ → Bool → Run
finish attempt completed = record {
  attempts = attempt ∷ [];
  delays = [];
  finished = some completed;
}

-- `on_disconnect_finished` of an error that is not accepted, where `again` is the next attempt, and
-- `retry_disconnect_timeout_cb` after the delay
abbrev pub after_error : ℕ → Outcome → Run → Run
after_error attempt outcome again =
    let delay = removal_disconnect_retry_delay_msec attempt in
    if removal_disconnect_retry_should_schedule attempt
      (disconnect_error_is_retryable outcome.error) outcome.required
    then (if outcome.required_at_retry
        then record {
          attempts = attempt ∷ again.attempts;
          delays = delay ∷ again.delays;
          finished = again.finished;
        }
        else record { attempts = attempt ∷ []; delays = delay ∷ []; finished = some false })
    else finish attempt false

-- `send_disconnect_request` with this attempt number, and `on_disconnect_finished` on its outcome
unfoldable pub send_disconnect_request : ℕ → List Outcome → Run
send_disconnect_request attempt [] = waiting attempt
send_disconnect_request attempt (outcome ∷ os) =
    let again = send_disconnect_request (attempt + 1) os in
    if is_accepted outcome.error then finish attempt true else after_error attempt outcome again

-- `bluez_monitor_disconnect_device` sends the first attempt.
abbrev pub disconnect_device : List Outcome → Run
disconnect_device = send_disconnect_request 1
