-- ===== src/Connection.antt =====
-- daemon/src/connection_policy.c and connection_policy.h: what to do when BlueZ reports a device,
-- the life of a deliberate removal disconnect, and its retries. A lifecycle is passed by value:
-- its callers pass the address of a field of their own state, never NULL.
pub mod Address
pub mod Decisions
pub mod Phases
pub mod Lifecycle
pub mod Cycle
pub mod Retry
use earport_handoff.Base.{
  ℕ, ◌-◌, ◌*◌, ◌%◌, ◌^◌, Bool, true, false, not, ◌&&◌, Option, none, some, ltb, ◌==◌, if◌then◌else◌,
}
use earport_handoff.Base.Text.{CString, is_nonempty, equal_fold}

pub data ConnectionDecision : Type 0 where
  ignore connect current switch disconnect_current : ConnectionDecision

pub record RemovalLifecycle : Type 0 where
  pub address : CString
  pub disconnect_pending : Bool
  pub reworn_while_disconnect_pending : Bool

abbrev pub removal_disconnect_retry_base_msec : ℕ
removal_disconnect_retry_base_msec = 250

abbrev pub removal_disconnect_max_attempts : ℕ
removal_disconnect_max_attempts = 4

abbrev pub address_is_valid : CString → Bool
address_is_valid = is_nonempty

-- `strcasecmp` on two addresses that are not NULL
abbrev pub same_text : CString → CString → Bool
same_text (some left) (some right) = equal_fold left right
same_text _ _ = false

unfoldable pub airpods_address_equal : CString → CString → Bool
airpods_address_equal left right =
    address_is_valid left && address_is_valid right && same_text left right

unfoldable pub connection_policy_device_connected : CString → CString → ConnectionDecision
connection_policy_device_connected current_address event_address =
    if not (address_is_valid event_address)
    then ignore
    else if not (address_is_valid current_address)
    then connect
    else if airpods_address_equal current_address event_address
    then current
    else switch

unfoldable pub connection_policy_device_disconnected : CString → CString → ConnectionDecision
connection_policy_device_disconnected current_address event_address =
    if not (airpods_address_equal current_address event_address) then ignore else disconnect_current

unfoldable pub removal_lifecycle_clear : RemovalLifecycle → RemovalLifecycle
removal_lifecycle_clear lifecycle = record lifecycle {
  address = none;
  disconnect_pending = false;
  reworn_while_disconnect_pending = false;
}

unfoldable pub removal_lifecycle_mark : RemovalLifecycle → CString → RemovalLifecycle
unfolding removal_lifecycle_clear
removal_lifecycle_mark lifecycle address =
    if not (address_is_valid address) then removal_lifecycle_clear lifecycle else record lifecycle {
      address =
          if not (airpods_address_equal lifecycle.address address)
          then address
          else lifecycle.address;
      disconnect_pending = true;
      reworn_while_disconnect_pending = false;
    }

unfoldable pub removal_lifecycle_matches : RemovalLifecycle → CString → Bool
removal_lifecycle_matches lifecycle address = airpods_address_equal lifecycle.address address

unfoldable pub removal_lifecycle_note_connected :
    RemovalLifecycle → CString → RemovalLifecycle × Bool
unfolding removal_lifecycle_clear removal_lifecycle_matches
removal_lifecycle_note_connected lifecycle address =
    if removal_lifecycle_matches lifecycle address
    then (lifecycle, true)
    else (removal_lifecycle_clear lifecycle, false)

unfoldable pub removal_lifecycle_note_disconnected :
    RemovalLifecycle → CString → RemovalLifecycle × Bool
unfolding removal_lifecycle_matches
removal_lifecycle_note_disconnected lifecycle address =
    let reconnect = lifecycle.disconnect_pending && lifecycle.reworn_while_disconnect_pending in
    if not (removal_lifecycle_matches lifecycle address) then (lifecycle, false) else (
      record lifecycle { disconnect_pending = false; reworn_while_disconnect_pending = false },
      reconnect,
    )

unfoldable pub removal_lifecycle_note_wear :
    RemovalLifecycle → CString → Bool → Bool → RemovalLifecycle × Bool
unfolding removal_lifecycle_clear removal_lifecycle_matches
removal_lifecycle_note_wear lifecycle address left_in_ear right_in_ear =
    if not (removal_lifecycle_matches lifecycle address)
    then (if address_is_valid address then removal_lifecycle_clear lifecycle else lifecycle, false)
    else if not left_in_ear && not right_in_ear
    then (
      if lifecycle.disconnect_pending
          then record lifecycle { reworn_while_disconnect_pending = false }
          else lifecycle,
      false,
    )
    else if lifecycle.disconnect_pending
    then (record lifecycle { reworn_while_disconnect_pending = true }, false)
    else (removal_lifecycle_clear lifecycle, true)

unfoldable pub removal_disconnect_retry_should_schedule : ℕ → Bool → Bool → Bool
removal_disconnect_retry_should_schedule completed_attempts retryable_error still_fully_removed =
    ltb 0 completed_attempts
    && ltb completed_attempts removal_disconnect_max_attempts
    && retryable_error
    && still_fully_removed

-- The shift is of an `unsigned int`; `completed_attempts - 1` runs only when it is not 0.
unfoldable pub removal_disconnect_retry_delay_msec : ℕ → ℕ
removal_disconnect_retry_delay_msec completed_attempts =
    let shift = completed_attempts - 1 in
    let max_shift = removal_disconnect_max_attempts - 2 in
    let bounded = if ltb max_shift shift then max_shift else shift in
    if completed_attempts == 0
    then removal_disconnect_retry_base_msec
    else removal_disconnect_retry_base_msec * 2 ^ bounded % 2 ^ 32
