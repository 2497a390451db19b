-- ===== src/Connection/Retry.antt =====
-- Whether and when a removal disconnect is tried again.
use earport_handoff.Base.{ℕ, zero, suc, ◌-◌, ◌*◌, ◌^◌, ◌≤◌, ◌<◌, ◌≡◌, Bool, true, arith}
use earport_handoff.Connection.{
  removal_disconnect_retry_base_msec, removal_disconnect_max_attempts,
  removal_disconnect_retry_should_schedule, removal_disconnect_retry_delay_msec,
}

-- A retry is scheduled only after one of the first three failures, if the error is transient and
-- the device still fully removed; its delay is then 250 ms, doubled for each failure after the
-- first.
pub scheduled_delay :
    (n : ℕ) (retryable removed : Bool)
    → removal_disconnect_retry_should_schedule n retryable removed ≡ true
    → (0 < n)
      × (n < removal_disconnect_max_attempts)
      × (retryable ≡ true)
      × (removed ≡ true)
      × (removal_disconnect_retry_delay_msec n ≡ removal_disconnect_retry_base_msec * 2 ^ (n - 1))
unfolding removal_disconnect_retry_should_schedule removal_disconnect_retry_delay_msec
scheduled_delay zero r s h = cc
scheduled_delay (suc zero) r s h = ground arith
scheduled_delay (suc (suc zero)) r s h = ground arith
scheduled_delay (suc (suc (suc zero))) r s h = ground arith
scheduled_delay (suc (suc (suc (suc n)))) r s h = absurd (ground arith)

-- Each delay is between 250 ms and 1 s, whatever the count of attempts.
pub delay_bounds :
    (n : ℕ)
    → (removal_disconnect_retry_base_msec ≤ removal_disconnect_retry_delay_msec n)
      × (removal_disconnect_retry_delay_msec n ≤ 1000)
unfolding removal_disconnect_retry_delay_msec
delay_bounds zero = omega arith
delay_bounds (suc zero) = ground arith
delay_bounds (suc (suc zero)) = ground arith
delay_bounds (suc (suc (suc n))) = ground arith
