-- ===== src/Monitor/Rewear.antt =====
-- The Connect calls of one automatic connection, and the retries where it follows a rewear during a
-- removal. BlueZ decides the outcome of each call; the outcomes are the input.
use earport_handoff.Base.{
  ℕ, ◌+◌, ◌-◌, ◌*◌, ◌^◌, Bool, true, false, not, ◌&&◌, ◌||◌, Option, none, some, List, [], ◌∷◌, ltb,
  if◌then◌else◌,
}
use earport_handoff.Base.Int.{pos}
use earport_handoff.Base.Text.{CString}
use earport_handoff.Ble.{BleAutoConnectState}
use earport_handoff.Monitor.{CallError, is_named}

abbrev pub rapid_rewear_connect_retry_base_msec : ℕ
rapid_rewear_connect_retry_base_msec = 250

abbrev pub rapid_rewear_connect_max_attempts : ℕ
rapid_rewear_connect_max_attempts = 4

-- the local `terminal`
unfoldable pub rewear_error_is_terminal : CString → Bool
rewear_error_is_terminal remote_error =
    is_named remote_error "org.bluez.Error.NotPaired"
    || is_named remote_error "org.bluez.Error.NotSupported"
    || is_named remote_error "org.bluez.Error.InvalidArguments"
    || is_named remote_error "org.freedesktop.DBus.Error.UnknownObject"
    || is_named remote_error "org.freedesktop.DBus.Error.ServiceUnknown"

unfoldable pub rapid_rewear_connect_error_is_retryable : Option CallError → Bool
unfolding rewear_error_is_terminal
rapid_rewear_connect_error_is_retryable none = false
rapid_rewear_connect_error_is_retryable (some error) =
    not (rewear_error_is_terminal error.remote_error)

-- How a Connect call ends: its error, if any; whether the monitor is disposed of when the answer
-- arrives, and when the timer of the retry runs out; and whether the device is then known or in
-- `connect_in_flight`.
pub record Answer : Type 0 where
  pub error : Option CallError
  pub disposed : Bool
  pub disposed_at_retry : Bool
  pub known_at_retry : Bool
  pub in_flight_at_retry : Bool

-- Where the calls stop: an answer is due, BlueZ accepted one, the last one failed, or
-- `retry_rapid_rewear_connect` sent none.
pub data ConnectEnd : Type 0 where
  pending : ConnectEnd
  accepted : ConnectEnd
  failed : ConnectEnd
  dropped : ConnectEnd

-- the attempt numbers of the Connect calls, the delays of the retries, and the end
pub record ConnectRun : Type 0 where
  pub attempts : List ℕ
  pub delays : List ℕ
  pub end : ConnectEnd

abbrev pub stop : ℕ → ConnectEnd → ConnectRun
stop attempt end = record { attempts = attempt ∷ []; delays = []; end = end }

-- `retry_rapid_rewear_connect`, where `again` is the next attempt
unfoldable pub retry_rapid_rewear_connect : ℕ → Answer → ConnectRun → ConnectRun
retry_rapid_rewear_connect attempt answer again =
    let delay = rapid_rewear_connect_retry_base_msec * 2 ^ (attempt - 1) in
    if answer.disposed_at_retry || answer.known_at_retry || answer.in_flight_at_retry
    then record { attempts = attempt ∷ []; delays = delay ∷ []; end = dropped }
    else record {
      attempts = attempt ∷ again.attempts;
      delays = delay ∷ again.delays;
      end = again.end;
    }

-- the test for a retry
unfoldable pub retries : Bool → ℕ → Answer → Bool
retries direct_rewear attempt answer =
    direct_rewear
    && ltb attempt rapid_rewear_connect_max_attempts
    && not answer.disposed
    && rapid_rewear_connect_error_is_retryable answer.error

abbrev pub is_error : Option CallError → Bool
is_error none = false
is_error (some error) = true

-- `request_device_connect_attempt` of a device that is not in flight, and `on_auto_connect_finished`
-- on its answer
unfoldable pub request_device_connect_attempt : Bool → ℕ → List Answer → ConnectRun
unfolding retry_rapid_rewear_connect retries
request_device_connect_attempt direct_rewear attempt [] = stop attempt pending
request_device_connect_attempt direct_rewear attempt (answer ∷ answers) =
    let again = request_device_connect_attempt direct_rewear (attempt + 1) answers in
    if not (is_error answer.error)
    then stop attempt accepted
    else if retries direct_rewear attempt answer
    then retry_rapid_rewear_connect attempt answer again
    else stop attempt failed

-- the state of the advertising path after the failure, where the table has one
unfoldable pub rearm_after_failure : BleAutoConnectState → BleAutoConnectState
rearm_after_failure state = record state {
  worn_sequence_active = false;
  worn_observations = 0;
  first_worn_observation_usec = pos 0;
  sequence_consumed = false;
}

-- `request_device_connect`, from an advertisement
abbrev pub request_device_connect : List Answer → ConnectRun
request_device_connect = request_device_connect_attempt false 1

-- the request of `bluez_monitor_connect_device`, after a rewear
abbrev pub request_rewear_connect : List Answer → ConnectRun
request_rewear_connect = request_device_connect_attempt true 1
