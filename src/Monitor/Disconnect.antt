-- ===== src/Monitor/Disconnect.antt =====
-- How many calls one removal disconnect sends, and how it ends.
use earport_handoff.Base.{
  ℕ, zero, suc, ◌+◌, ◌-◌, ◌≤◌, ◌<◌, ◌≡◌, refl, ◌↔◌, inl, inr, Bool, true, false, Option, none, some,
  List, [], ◌∷◌, arith, length, get_elem?, ap, ◌∙◌, Bool-cases,
}
use earport_handoff.Connection.{
  removal_disconnect_max_attempts, removal_disconnect_retry_should_schedule,
  removal_disconnect_retry_delay_msec,
}
use earport_handoff.Connection.Retry.{scheduled_delay}
use earport_handoff.Monitor.{
  Outcome, Run, is_accepted, disconnect_error_is_retryable, send_disconnect_request,
  disconnect_device,
}

abbrev pub sum : List ℕ → ℕ
sum [] = 0
sum (x ∷ xs) = x + sum xs

-- an upper bound on the delays that are left, when this attempt has been sent
abbrev budget : ℕ → ℕ
budget zero = 2000
budget (suc zero) = 1750
budget (suc (suc zero)) = 1500
budget (suc (suc (suc zero))) = 1000
budget (suc (suc (suc (suc n)))) = 0

budget_step :
    (n : ℕ) (retryable required : Bool)
    → removal_disconnect_retry_should_schedule n retryable required ≡ true
    → removal_disconnect_retry_delay_msec n + budget (n + 1) ≤ budget n
unfolding removal_disconnect_retry_should_schedule removal_disconnect_retry_delay_msec
budget_step zero r q h = cc
budget_step (suc zero) r q h = omega arith
budget_step (suc (suc zero)) r q h = omega arith
budget_step (suc (suc (suc zero))) r q h = omega arith
budget_step (suc (suc (suc (suc n)))) r q h = absurd (ground arith)

send_bounds :
    (os : List Outcome) (n : ℕ)
    → 0 < n
    → n ≤ removal_disconnect_max_attempts
    → (length (send_disconnect_request n os).attempts + n ≤ removal_disconnect_max_attempts + 1)
      × (sum (send_disconnect_request n os).delays ≤ budget n)
unfolding send_disconnect_request
send_bounds [] n p h = omega arith
send_bounds (o ∷ os) n p h =
    let retryable = disconnect_error_is_retryable o.error in
    let required = o.required in
    elim (Bool-cases (is_accepted o.error)) [
      | inl accepted ↦ rw accepted (omega arith)
      | inr refused ↦
          elim (Bool-cases (removal_disconnect_retry_should_schedule n retryable required)) [
            | inl again ↦
                let (lo, hi, _, _, _) = scheduled_delay n retryable required again in
                let rest = send_bounds os (n + 1) (omega arith) (omega arith) in
                rw (refused, again) (ground (arith, budget_step n retryable required again, rest))
            | inr last ↦ rw (refused, last) (omega arith)
          ]
    ]

-- Whatever BlueZ answers, one removal sends at most four Disconnect calls, and waits at most
-- 1750 ms in all between them.
pub disconnect_bounds :
    (os : List Outcome)
    → (length (disconnect_device os).attempts ≤ removal_disconnect_max_attempts)
      × (sum (disconnect_device os).delays ≤ 1750)
disconnect_bounds os = omega (arith, send_bounds os 1 (omega arith) (omega arith))

send_finishes :
    (os : List Outcome) (n : ℕ)
    → 0 < n
    → n ≤ removal_disconnect_max_attempts
    → removal_disconnect_max_attempts < length os + n
    → (b : Bool) × ((send_disconnect_request n os).finished ≡ some b)
unfolding send_disconnect_request
send_finishes [] n p q h = absurd (omega arith)
send_finishes (o ∷ os) n p q h =
    let retryable = disconnect_error_is_retryable o.error in
    let required = o.required in
    elim (Bool-cases (is_accepted o.error)) [
      | inl accepted ↦ (true, rw accepted)
      | inr refused ↦
          elim (Bool-cases (removal_disconnect_retry_should_schedule n retryable required)) [
            | inl again ↦
                let (lo, hi, _, _, _) = scheduled_delay n retryable required again in
                let (b, e) = send_finishes os (n + 1) (omega arith) (omega arith) (omega arith) in
                elim (Bool-cases o.required_at_retry) [
                  | inl sent ↦ (b, rw (refused, again, sent) e)
                  | inr given_up ↦ (false, rw (refused, again, given_up))
                ]
            | inr last ↦ (false, rw (refused, last))
          ]
    ]

-- Once BlueZ has answered four calls, the callback has been told how the removal ended.
pub disconnect_finishes :
    (os : List Outcome)
    → removal_disconnect_max_attempts ≤ length os
    → (b : Bool) × ((disconnect_device os).finished ≡ some b)
disconnect_finishes os h = send_finishes os 1 (omega arith) (omega arith) (omega arith)

send_nonempty : (os : List Outcome) (n : ℕ) → 0 < length (send_disconnect_request n os).attempts
unfolding send_disconnect_request
send_nonempty [] n = omega arith
send_nonempty (o ∷ os) n = ground arith

-- whether the outcome of the last call sent is acceptance; false where it is not answered
abbrev pub accepts : Option Outcome → Bool
accepts none = false
accepts (some o) = is_accepted o.error

abbrev pub last_accepted : Run → List Outcome → Bool
last_accepted r os = accepts (get_elem? os (length r.attempts - 1))

get_elem?-cons :
    (o : Outcome) (os : List Outcome) (k : ℕ)
    → 0 < k
    → get_elem? (o ∷ os) (suc k - 1) ≡ get_elem? os (k - 1)
get_elem?-cons o os zero h = elim h [ ]
get_elem?-cons o os (suc k) h =
    let down : suc (suc k) - 1 ≡ suc k = omega arith in
    let up : k ≡ suc k - 1 = omega arith in ap (get_elem? (o ∷ os)) down ∙ ap (get_elem? os) up

send_succeeds :
    (os : List Outcome) (n : ℕ)
    → ((send_disconnect_request n os).finished ≡ some true)
      ↔ (last_accepted (send_disconnect_request n os) os ≡ true)
unfolding send_disconnect_request
send_succeeds [] n = (λ h. cc, λ h. cc)
send_succeeds (o ∷ os) n = elim (Bool-cases (is_accepted o.error)) [
  | inl accepted ↦ rw accepted (λ h. accepted, λ h. refl)
  | inr refused ↦
      elim (Bool-cases (
        removal_disconnect_retry_should_schedule n (disconnect_error_is_retryable o.error)
          o.required)) [
            | inl again ↦ elim (Bool-cases o.required_at_retry) [
              | inl sent ↦
                  rw (refused, again, sent)
                    (rw
                      (get_elem?-cons (record o { required_at_retry = true }) os _
                        (send_nonempty os (n + 1)))
                      (send_succeeds os (n + 1)))
              | inr given_up ↦ rw (refused, again, given_up) (λ h. cc, λ h. cc)
            ]
            | inr last ↦ rw (refused, last) (λ h. cc, λ h. cc)
          ]
]

-- The callback is told of success exactly if the last Disconnect call sent was accepted, or the
-- device was no longer connected.
pub disconnect_succeeds_iff :
    (os : List Outcome)
    → ((disconnect_device os).finished ≡ some true)
      ↔ (last_accepted (disconnect_device os) os ≡ true)
disconnect_succeeds_iff os = send_succeeds os 1
