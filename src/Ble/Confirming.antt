-- ===== src/Ble/Confirming.antt =====
-- What the edge detector has seen before it asks for a connection.
use earport_handoff.Base.{
  ◌≡◌, refl, ◌⊎◌, inl, inr, Bool, true, false, not, ◌&&◌, ◌||◌, List, arith, Bool-cases,
}
use earport_handoff.Base.Int.{ℤ, pos, ltb_ℤ, ◌-ℤ◌, ◌≤ℤ◌}
use earport_handoff.Base.Trace.{run, Since, Explains, flag-Since}
use earport_handoff.Ble.{BleAutoConnectState, ble_autoconnect_observe}
use earport_handoff.Ble.Firing.{Observation, fresh, observe}

abbrev pub same_time : ℤ → ℤ → Bool
same_time a b = not (ltb_ℤ a b) && not (ltb_ℤ b a)

same_time_refl : (t : ℤ) → same_time t t ≡ true
same_time_refl t = ground arith

module _ (window cooldown : ℤ) where
  abbrev pub after : BleAutoConnectState → Observation → BleAutoConnectState
  after s o = (observe window cooldown s o).0

  baseline-Explains : Explains after (λ s. s.has_observed_unworn) (λ o. not o.worn) (λ o. true)
  unfolding ble_autoconnect_observe
  baseline-Explains s o h = ground arith

  in_sequence : ℤ → BleAutoConnectState → Bool
  in_sequence t s = s.worn_sequence_active && same_time s.first_worn_observation_usec t

  sequence-Explains :
      (t : ℤ)
      → (ltb_ℤ window (pos 0) || ltb_ℤ cooldown (pos 0)) ≡ false
      → Explains after (in_sequence t) (λ o. o.worn && same_time o.now_usec t) (λ o. o.worn)
  unfolding ble_autoconnect_observe in_sequence
  sequence-Explains t valid s o h = ground arith

  fire_needs :
      (s : BleAutoConnectState) (o : Observation)
      → (observe window cooldown s o).1 ≡ true
      → (o.worn ≡ true)
        × (s.has_observed_unworn ≡ true)
        × ((ltb_ℤ window (pos 0) || ltb_ℤ cooldown (pos 0)) ≡ false)
        × (o.confirm_first_worn ≡ false
            → (s.worn_sequence_active ≡ true)
              × (s.first_worn_observation_usec ≤ℤ o.now_usec)
              × (o.now_usec -ℤ s.first_worn_observation_usec ≤ℤ window))
  unfolding ble_autoconnect_observe
  fire_needs s o h = ground arith

  -- When an observation of a new device fires: it is worn, and an unworn one came before it. Unless
  -- it is strong enough to confirm itself, an earlier observation was worn, at most the window
  -- before it, and all since then were worn.
  pub fire_confirmed :
      (os : List Observation) (o : Observation)
      → (observe window cooldown (run after fresh os) o).1 ≡ true
      → (o.worn ≡ true)
        × Since (λ p. not p.worn) (λ p. true) os
        × ((o.confirm_first_worn ≡ true)
            ⊎ ((t : ℤ) × Since (λ p. p.worn && same_time p.now_usec t) (λ p. p.worn) os
                × (t ≤ℤ o.now_usec)
                × (o.now_usec -ℤ t ≤ℤ window)))
  unfolding in_sequence
  fire_confirmed os o h =
      let s = run after fresh os in
      let (worn, baseline, valid, confirmed) = fire_needs s o h in
      (
        worn,
        flag-Since after (λ s. s.has_observed_unworn) (λ p. not p.worn) (λ p. true)
            baseline-Explains fresh os refl baseline,
        elim (Bool-cases o.confirm_first_worn) [
          | inl strong ↦ inl strong
          | inr weak ↦
              let (active, early, near) = confirmed weak in
              let t = s.first_worn_observation_usec in
              inr (
                t,
                flag-Since after (in_sequence t) (λ p. p.worn && same_time p.now_usec t)
                    (λ p. p.worn) (sequence-Explains t valid) fresh os refl
                    (rw active (same_time_refl t)),
                early,
                near,
              )
        ],
      )
