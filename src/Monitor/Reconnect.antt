-- ===== src/Monitor/Reconnect.antt =====
-- How an automatic connection ends: the retries after a rewear, and what a failure leaves.
use earport_handoff.Base.{
  ℕ, zero, suc, ◌+◌, ◌-◌, ◌*◌, ◌^◌, ◌≤◌, ◌<◌, ◌≡◌, refl, inl, inr, Bool, true, false, ◌||◌, List,
  [], ◌∷◌, arith, length, Bool-cases, if◌then◌else◌,
}
use earport_handoff.Base.Int.{ℤ, pos, ◌-ℤ◌, ◌≤ℤ◌}
use earport_handoff.Ble.{BleAutoConnectState, ble_autoconnect_observe}
use earport_handoff.Ble.Firing.{Observation}
use earport_handoff.Ble.Spacing.{SpacedFrom, fire_times, spaced_from}
use earport_handoff.Monitor.Disconnect.{sum}
use earport_handoff.Monitor.Rewear.{
  Answer, ConnectEnd, pending, accepted, failed, dropped, is_error, retries,
  rapid_rewear_connect_max_attempts, rapid_rewear_connect_retry_base_msec,
  retry_rapid_rewear_connect, rearm_after_failure, request_device_connect_attempt,
  request_device_connect, request_rewear_connect,
}

-- an upper bound on the delays that are left, when this attempt has been sent
abbrev budget : ℕ → ℕ
budget zero = 2000
budget (suc zero) = 1750
budget (suc (suc zero)) = 1500
budget (suc (suc (suc zero))) = 1000
budget (suc (suc (suc (suc n)))) = 0

budget_step :
    (direct : Bool) (n : ℕ) (answer : Answer)
    → 0 < n
    → retries direct n answer ≡ true
    → (n < rapid_rewear_connect_max_attempts)
      × (direct ≡ true)
      × (rapid_rewear_connect_retry_base_msec * 2 ^ (n - 1) + budget (n + 1) ≤ budget n)
unfolding retries
budget_step direct zero answer p h = absurd (omega arith)
budget_step direct (suc zero) answer p h = ground arith
budget_step direct (suc (suc zero)) answer p h = ground arith
budget_step direct (suc (suc (suc zero))) answer p h = ground arith
budget_step direct (suc (suc (suc (suc n)))) answer p h = absurd (ground arith)

-- the result of a call that failed, by whether a retry was due and was sent
abbrev is_blocked : Answer → Bool
is_blocked answer = answer.disposed_at_retry || answer.known_at_retry || answer.in_flight_at_retry

attempt_bounds :
    (direct : Bool) (answers : List Answer) (n : ℕ)
    → 0 < n
    → n ≤ rapid_rewear_connect_max_attempts
    → (length (request_device_connect_attempt direct n answers).attempts + n
        ≤ rapid_rewear_connect_max_attempts + 1)
      × (sum (request_device_connect_attempt direct n answers).delays ≤ budget n)
unfolding request_device_connect_attempt retry_rapid_rewear_connect
attempt_bounds direct [] n p h = omega arith
attempt_bounds direct (answer ∷ answers) n p h = elim (Bool-cases (is_error answer.error)) [
  | inr fine ↦ rw fine (omega arith)
  | inl error ↦ elim (Bool-cases (retries direct n answer)) [
    | inr last ↦ rw (error, last) (omega arith)
    | inl again ↦
        let (below, _, step) = budget_step direct n answer p again in
        let rest = attempt_bounds direct answers (n + 1) (omega arith) (omega arith) in
        elim (Bool-cases (is_blocked answer)) [
          | inl blocked ↦ rw (error, again, blocked) (omega (arith, step, rest))
          | inr sent ↦ rw (error, again, sent) (omega (arith, step, rest))
        ]
  ]
]

-- Whatever BlueZ answers, a connection after a rewear sends at most four Connect calls, and waits
-- at most 1750 ms in all between them.
pub rewear_bounds :
    (answers : List Answer)
    → (length (request_rewear_connect answers).attempts ≤ rapid_rewear_connect_max_attempts)
      × (sum (request_rewear_connect answers).delays ≤ 1750)
rewear_bounds answers = omega (arith, attempt_bounds true answers 1 (omega arith) (omega arith))

-- A connection from an advertisement is one Connect call: it ends with the first answer, and
-- BlueZ accepts it exactly if that is no error.
pub advertisement_once :
    (answer : Answer) (answers : List Answer)
    → ((request_device_connect (answer ∷ answers)).attempts ≡ 1 ∷ [])
      × ((request_device_connect (answer ∷ answers)).end
          ≡ (if is_error answer.error then failed else accepted))
unfolding request_device_connect_attempt retries
advertisement_once answer answers = elim (Bool-cases (is_error answer.error)) [
  | inl error ↦ rw error (refl, refl)
  | inr fine ↦ rw fine (refl, refl)
]

abbrev pub is_over : ConnectEnd → Bool
is_over pending = false
is_over accepted = true
is_over failed = true
is_over dropped = true

attempt_ends :
    (answers : List Answer) (n : ℕ)
    → 0 < n
    → n ≤ rapid_rewear_connect_max_attempts
    → rapid_rewear_connect_max_attempts < length answers + n
    → is_over (request_device_connect_attempt true n answers).end ≡ true
unfolding request_device_connect_attempt retry_rapid_rewear_connect
attempt_ends [] n p q h = absurd (omega arith)
attempt_ends (answer ∷ answers) n p q h = elim (Bool-cases (is_error answer.error)) [
  | inr fine ↦ rw fine refl
  | inl error ↦ elim (Bool-cases (retries true n answer)) [
    | inr last ↦ rw (error, last) refl
    | inl again ↦
        let (below, _, _) = budget_step true n answer p again in
        elim (Bool-cases (is_blocked answer)) [
          | inl blocked ↦ rw (error, again, blocked) refl
          | inr sent ↦
              rw (error, again, sent)
                (attempt_ends answers (n + 1) (omega arith) (omega arith) (omega arith))
        ]
  ]
]

-- Once BlueZ has answered four calls, a connection after a rewear is over.
pub rewear_ends :
    (answers : List Answer)
    → rapid_rewear_connect_max_attempts ≤ length answers
    → is_over (request_rewear_connect answers).end ≡ true
rewear_ends answers h = attempt_ends answers 1 (omega arith) (omega arith) (omega arith)

-- After a failure, the path's observations fire only when the cooldown since the failed attempt is
-- over, and then each one a cooldown after the one before.
pub rearmed-Spaced :
    (window cooldown : ℤ) (observations : List Observation) (state : BleAutoConnectState)
    → state.has_attempted ≡ true
    → SpacedFrom cooldown state.last_attempt_usec
        (fire_times window cooldown (rearm_after_failure state) observations)
unfolding rearm_after_failure
rearmed-Spaced window cooldown observations state h =
    spaced_from window cooldown observations (rearm_after_failure state) h

-- After a failure, with the device worn all along: the first two worn advertisements after the
-- cooldown, if within the window and in order, ask for a connection again.
pub rearmed_fires :
    (window cooldown first second : ℤ) (state : BleAutoConnectState)
    → state.has_observed_unworn ≡ true
    → pos 0 ≤ℤ window
    → pos 0 ≤ℤ cooldown
    → first ≤ℤ second
    → second -ℤ first ≤ℤ window
    → state.last_attempt_usec ≤ℤ second
    → cooldown ≤ℤ second -ℤ state.last_attempt_usec
    → let rearmed = rearm_after_failure state in
      let begun = ble_autoconnect_observe rearmed true false first window cooldown in
      (begun.1 ≡ false)
      × ((ble_autoconnect_observe begun.0 true false second window cooldown).1 ≡ true)
unfolding rearm_after_failure ble_autoconnect_observe
rearmed_fires window cooldown first second state h p q r v w x = ground arith
